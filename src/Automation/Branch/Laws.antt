-- ===== src/Automation/Branch/Laws.antt =====
-- Which branch a condition selects.
use mathlib.Core.List.{Memᴰ}
use mathlib.Core.Path.{subst}
use manychat.Prelude.{
  sym, ◌≤◌, ◌≡◌, ◌≢◌, refl, inl, inr, Bool, true, false, ◌&&◌, not, List, [], ◌∷◌, none, some, All,
  All-map, any, ltb, arith, find, filter, Bool-cases, Option-cases, eq_of_some-eq-some,
}
use manychat.Automation.Graph.{Node, Edge, is_configured}
use manychat.Automation.Branch.{
  SimulationInput, priority_of, sort_by_priority, has_legacy_node_condition, edge_matches,
  configured, is_empty, select_condition,
}
use manychat.Automation.Branch.Order.{
  Ascending, All-of_sort, sort-Ascending, filter-Ascending, find-lowest, find-none,
}

-- What is said of the members that pass the filter is an implication for all members.
All-of_filter :
    (P : Edge → Type 0) (keep : Edge → Bool) (es : List Edge)
    → All P (filter keep es)
    → All (λ f. keep f ≡ true → P f) es
All-of_filter P keep [] h = tt
All-of_filter P keep (e ∷ es) h = elim (Bool-cases (keep e)) [
  | inl kept ↦ let (p, rest) = pair (rw kept at h) in (λ k. p, All-of_filter P keep es rest)
  | inr dropped ↦ (λ k. cc (dropped, k), All-of_filter P keep es (rw dropped at h))
]
  where
    pair : P e × All P (filter keep es) → P e × All P (filter keep es)
    pair x = x

find-test : (test : Edge → Bool) (es : List Edge) (e : Edge) → find test es ≡ some e → test e ≡ true
find-test test [] e h = cc
find-test test (f ∷ es) e h = elim (Bool-cases (test f)) [
  | inl hit ↦ let same : f ≡ e = eq_of_some-eq-some (rw hit at h) in rw (← same) hit
  | inr miss ↦ find-test test es e (rw miss at h)
]

find-filter :
    (keep test : Edge → Bool) (es : List Edge) (e : Edge)
    → find test (filter keep es) ≡ some e
    → keep e ≡ true
find-filter keep test [] e h = cc
find-filter keep test (f ∷ es) e h = elim (Bool-cases (keep f)) [
  | inl kept ↦ elim (Bool-cases (test f)) [
    | inl hit ↦ let same : f ≡ e = eq_of_some-eq-some (rw (kept, hit) at h) in rw (← same) kept
    | inr miss ↦ find-filter keep test es e (rw (kept, miss) at h)
  ]
  | inr dropped ↦ find-filter keep test es e (rw dropped at h)
]

is_empty-ne : (es : List Edge) → es ≢ [] → is_empty es ≡ false
is_empty-ne [] h = absurd (h refl)
is_empty-ne (e ∷ es) h = refl

module _ (input : SimulationInput) (node : Node) where
  -- The test is one edge's; the selected edge is the lowest of those that pass it.
  abbrev IsLowest : List Edge → Edge → Type 0
  IsLowest edges e =
      (edge_matches input node e ≡ true)
      × All
          (λ f.
            is_configured f ≡ true
            → edge_matches input node f ≡ true
            → priority_of e ≤ priority_of f)
          edges

  select_condition-Ascending :
      (edges : List Edge) (e : Edge)
      → Ascending edges
      → select_condition input node edges ≡ some e
      → is_configured e ≡ true
      → IsLowest edges e
  unfolding select_condition
  select_condition-Ascending edges e h k c =
      elim (Bool-cases (is_empty (configured edges) && has_legacy_node_condition node)) [
        | inl legacy ↦
            let (hit, lowest) =
              find-lowest (edge_matches input node) edges e h
                (rw (legacy, select_condition) at k) in
            (hit, All-map _ _ edges (λ f le configured matches. le matches) lowest)
        | inr plain ↦ elim (Option-cases (find (edge_matches input node) (configured edges))) [
          | inl missed ↦ cc (
            find-test (λ f. not (is_configured f)) edges e
                (rw (plain, missed, select_condition) at k),
            c,
          )
          | inr (e', found) ↦
              let same : e' ≡ e = eq_of_some-eq-some (rw (plain, found, select_condition) at k) in
              let (hit, lowest) =
                find-lowest (edge_matches input node) (configured edges) e
                  (filter-Ascending is_configured edges h) (rw same at found) in
              (hit, All-of_filter _ is_configured edges lowest)
        ]
      ]

  at_member : (P : Edge → Type 0) {e : Edge} (edges : List Edge) → All P edges → Memᴰ e edges → P e
  at_member P [] h m = elim m [ ]
  at_member P (f ∷ edges) (p, h) (Memᴰ.head same) = subst P (sym same) p
  at_member P (f ∷ edges) (p, h) (Memᴰ.tail m) = at_member P edges h m

  -- A configured branch that matches and has a lower priority value than `e`.
  abbrev pub goes_first : Edge → Edge → Bool
  goes_first e f =
      is_configured f && edge_matches input node f && ltb (priority_of f) (priority_of e)

  none_first :
      (e : Edge) (edges : List Edge)
      → All
          (λ f.
            is_configured f ≡ true
            → edge_matches input node f ≡ true
            → priority_of e ≤ priority_of f)
          edges
      → any (goes_first e) edges ≡ false
  none_first e [] h = refl
  none_first e (f ∷ edges) (low, h) = elim (Bool-cases (is_configured f)) [
    | inr plain ↦ rw plain (none_first e edges h)
    | inl branch ↦ rw branch (elim (Bool-cases (edge_matches input node f)) [
      | inr misses ↦ rw misses (none_first e edges h)
      | inl matches ↦ rw matches (ground (arith, low branch matches, none_first e edges h))
    ])
  ]

  -- A configured branch that a CONDITION node selects matches, and no configured branch of the node
  -- that matches has a lower priority value.
  pub select_condition-lowest :
      (edges : List Edge) (e : Edge)
      → select_condition input node (sort_by_priority edges) ≡ some e
      → is_configured e ≡ true
      → (edge_matches input node e ≡ true) × (any (goes_first e) edges ≡ false)
  select_condition-lowest edges e k c =
      let (hit, lowest) =
        select_condition-Ascending (sort_by_priority edges) e (sort-Ascending edges) k c in
      (hit, none_first e edges (All-of_sort _ edges lowest))

  find-none_of_select :
      (edges : List Edge) (e : Edge)
      → select_condition input node edges ≡ some e
      → is_configured e ≡ false
      → configured edges ≢ []
      → find (edge_matches input node) (configured edges) ≡ none
  unfolding select_condition
  find-none_of_select edges e k c some_branch =
      elim (Option-cases (find (edge_matches input node) (configured edges))) [
        | inl missed ↦ missed
        | inr (e', found) ↦
            let plain : (is_empty (configured edges) && has_legacy_node_condition node) ≡ false =
              rw (is_empty-ne (configured edges) some_branch) refl in
            let same : e' ≡ e = eq_of_some-eq-some (rw (plain, found, select_condition) at k) in
            cc (c, same, find-filter is_configured (edge_matches input node) edges e' found)
      ]

  ne-nil_of_member :
      (edges : List Edge) (f : Edge)
      → Memᴰ f edges
      → is_configured f ≡ true
      → configured (sort_by_priority edges) ≢ []
  ne-nil_of_member edges f listed configured_f e =
      let lacking : All (λ g. true ≡ false) (configured (sort_by_priority edges)) = rw e tt in
      cc (
        at_member _ edges (All-of_sort _ edges (All-of_filter _ is_configured _ lacking)) listed
          configured_f)

  -- Where the node has configured branches, the fallback is selected only if none of them matches.
  pub select_condition-fallback :
      (edges : List Edge) (e f : Edge)
      → select_condition input node (sort_by_priority edges) ≡ some e
      → is_configured e ≡ false
      → Memᴰ f edges
      → is_configured f ≡ true
      → edge_matches input node f ≡ false
  select_condition-fallback edges e f k c listed configured_f =
      let lacking = All-of_sort _ edges (
        All-of_filter _ is_configured (sort_by_priority edges) (
          find-none (edge_matches input node) (configured (sort_by_priority edges)) (
            find-none_of_select (sort_by_priority edges) e k c
              (ne-nil_of_member edges f listed configured_f)))) in
      at_member _ edges lacking listed configured_f
