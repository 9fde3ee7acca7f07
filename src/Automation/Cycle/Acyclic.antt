-- ===== src/Automation/Cycle/Acyclic.antt =====
-- Where no node is a continuation node, the search reports each cycle: if it ends with `done`, the
-- visited nodes are in an order in which edges only lead down.
use manychat.Prelude.{
  ℕ, zero, suc, ◌<◌, ◌≤◌, String, ◌≡◌, refl, inl, inr, Bool, true, false, List, [], ◌∷◌, has, any,
  has-cons_iff, has-cons_self, has-cons_later, Bool-cases, length, arith, if◌then◌else◌,
}
use mathlib.Core.Path.{subst}
use manychat.Automation.Reach.Total.{unseen, unseen-le-length, unseen_mono, unseen-cons_lt}
use manychat.Automation.Cycle.{
  State, Outcome, exhausted, found, done, segment, visit_each, enter, leave, visit, Route, one,
  more, start,
}

-- What stands behind the last `k` of the list.
pub behind : String → List String → List String
behind k [] = []
behind k (x ∷ xs) = let later = behind k xs in if has k xs then later else xs

not_behind : (k : String) (xs : List String) → has k (behind k xs) ≡ false
unfolding behind
not_behind k [] = refl
not_behind k (x ∷ xs) = ground (arith, not_behind k xs)

has_of_behind : (z k : String) (xs : List String) → has z (behind k xs) ≡ true → has z xs ≡ true
unfolding behind
has_of_behind z k [] h = h
has_of_behind z k (x ∷ xs) h = ground (arith, has_of_behind z k xs)

-- The number of the nodes that do not stand behind `k`.
pub depth : List String → List String → String → ℕ
depth nodes xs k = unseen nodes (behind k xs)

pub depth-le : (nodes xs : List String) (k : String) → depth nodes xs k ≤ length nodes
unfolding depth
depth-le nodes xs k =
    omega (arith, unseen_mono nodes [] (behind k xs) (λ x h. cc), unseen-le-length nodes)

pub depth-pos : (nodes xs : List String) (k : String) → has k nodes ≡ true → 0 < depth nodes xs k
unfolding depth
depth-pos nodes xs k h = omega (arith, unseen-cons_lt nodes (behind k xs) k h (not_behind k xs))

module _ (targets : String → List String) where
  -- The targets of each member's edges stand behind it.
  abbrev pub Ordered : List String → Type 0
  Ordered [] = Unit
  Ordered (x ∷ xs) = ((y : String) → has y (targets x) ≡ true → has y xs ≡ true) × Ordered xs

  behind_edge :
      (xs : List String) (x y : String)
      → Ordered xs
      → has x xs ≡ true
      → has y (targets x) ≡ true
      → (has y (behind x xs) ≡ true)
        × ((z : String) → has z (behind y xs) ≡ true → has z (behind x xs) ≡ true)
  unfolding behind
  behind_edge [] x y o h e = cc
  behind_edge (w ∷ ws) x y (target, o) h e = elim (Bool-cases (has x ws)) [
    | inl later ↦
        let (k, sub) = behind_edge ws x y o later e in
        let y_later = has_of_behind y x ws k in
        (rw later k, λ z b. rw later (sub z (rw (y_later, behind) at b)))
    | inr last ↦ elim ((has-cons_iff x w ws).0 h) [
      | inr never ↦ cc
      | inl same ↦
          let y_later = target y (rw same e) in
          (rw last y_later, λ z b. rw last (has_of_behind z y ws (rw (y_later, behind) at b)))
    ]
  ]

  -- Along an edge the depth grows.
  pub depth_lt :
      (nodes xs : List String) (x y : String)
      → Ordered xs
      → has x xs ≡ true
      → has y (targets x) ≡ true
      → has y nodes ≡ true
      → (has y xs ≡ true) × (depth nodes xs x < depth nodes xs y)
  unfolding depth
  depth_lt nodes xs x y o h e known =
      let (k, sub) = behind_edge xs x y o h e in
      (
        has_of_behind y x xs k,
        omega (
          arith,
          unseen-cons_lt nodes (behind y xs) y known (not_behind y xs),
          unseen_mono nodes (y ∷ behind y xs) (behind x xs) (λ z b.
              elim ((has-cons_iff z y (behind y xs)).0 b) [
                | inl same ↦ rw (← same) k
                | inr later ↦ sub z later
              ]),
        ),
      )

  module _ (guarded : String → Bool) (unguarded : (x : String) → guarded x ≡ false) where
    any-guarded : (xs : List String) → any guarded xs ≡ false
    any-guarded [] = refl
    any-guarded (x ∷ xs) = rw unguarded (any-guarded xs)

    -- What a call for `ids` that ends with `done` has done, from an ordered `visited`.
    abbrev Finished : List String → State → Outcome → Type 0
    Finished ids s exhausted = Unit
    Finished ids s found = Unit
    Finished ids s (done s') =
        ((x : String) → has x s.visited ≡ true → has x s'.visited ≡ true)
        × ((x : String) → has x ids ≡ true → has x s'.visited ≡ true)
        × Ordered s'.visited

    Finished-cons :
        (id : String) (ids : List String) (s t : State) (o : Outcome)
        → Finished (id ∷ []) s (done t)
        → Finished ids t o
        → Finished (id ∷ ids) s o
    Finished-cons id ids s t exhausted a b = tt
    Finished-cons id ids s t found a b = tt
    Finished-cons id ids s t (done u) (kept, listed, ordered) (kept', listed', ordered') = (
      λ x h. kept' x (kept x h),
      λ x h. elim ((has-cons_iff x id ids).0 h) [
        | inl same ↦ rw (← same) (kept' id (listed id (has-cons_self id [])))
        | inr later ↦ listed' x later
      ],
      ordered',
    )

    visit_each-Finished :
        (step : String → State → Outcome)
        → ((id : String) (s : State) → Ordered s.visited → Finished (id ∷ []) s (step id s))
        → (ids : List String) (s : State) → Ordered s.visited
        → Finished ids s (visit_each step ids s)
    unfolding visit_each
    visit_each-Finished step each [] s o = (λ x h. h, λ x h. cc, o)
    visit_each-Finished step each (id ∷ ids) s o =
        go (step id s) (each id s o) (λ s' p. visit_each-Finished step each ids s' p)
      where
        go :
            (out : Outcome)
            → Finished (id ∷ []) s out
            → ((s' : State) → Ordered s'.visited → Finished ids s' (visit_each step ids s'))
            → Finished (id ∷ ids) s (elim out [
              | exhausted ↦ exhausted
              | found ↦ found
              | done s' ↦ visit_each step ids s'
            ])
        go exhausted h rest = tt
        go found h rest = tt
        go (done s') h rest = Finished-cons id ids s s' (visit_each step ids s') h (rest s' h.2)

    leave-Finished :
        (id : String) (s : State) (o : Outcome)
        → Finished (targets id) (enter id s) o
        → Finished (id ∷ []) s (leave id o)
    leave-Finished id s exhausted h = tt
    leave-Finished id s found h = tt
    leave-Finished id s (done t) (kept, listed, ordered) = (
      λ x h. has-cons_later x id t.visited (kept x h),
      λ x h. elim ((has-cons_iff x id []).0 h) [
        | inl same ↦ (has-cons_iff x id t.visited).1 (inl same)
        | inr never ↦ cc
      ],
      (listed, ordered),
    )

    visit-Finished :
        (fuel : ℕ) (id : String) (s : State)
        → Ordered s.visited
        → Finished (id ∷ []) s (visit targets guarded fuel id s)
    unfolding visit
    visit-Finished zero id s o = tt
    visit-Finished (suc fuel) id s o = elim (Bool-cases (has id s.visiting)) [
      | inl on ↦ rw (on, any-guarded (segment id s.visiting)) tt
      | inr off ↦ elim (Bool-cases (has id s.visited)) [
        | inl old ↦
            rw (off, old)
              (
                λ x h. h,
                λ x h. elim ((has-cons_iff x id []).0 h) [
                  | inl same ↦ rw (← same) old
                  | inr never ↦ cc
                ],
                o,
              )
        | inr new ↦
            rw (off, new)
              (leave-Finished id s
                (visit_each (visit targets guarded fuel) (targets id) (enter id s))
                (visit_each-Finished (visit targets guarded fuel) (visit-Finished fuel) (targets id)
                  (enter id s) o))
      ]
    ]

    -- An ordered list of visited nodes that holds `ids`.
    pub visit_each-Ordered :
        (fuel : ℕ) (ids : List String) (s : State)
        → visit_each (visit targets guarded fuel) ids start ≡ done s
        → ((x : String) → has x ids ≡ true → has x s.visited ≡ true) × Ordered s.visited
    visit_each-Ordered fuel ids s e =
        let h : Finished ids start (visit_each (visit targets guarded fuel) ids start) =
          visit_each-Finished (visit targets guarded fuel) (visit-Finished fuel) ids start tt in
        let (kept, listed, ordered) = subst (Finished ids start) e h in (listed, ordered)

  pub Route_lt :
      {guarded : String → Bool} (nodes xs : List String)
      → ((x y : String) → has y (targets x) ≡ true → has y nodes ≡ true)
      → Ordered xs
      → {a b : String} → Route targets guarded a b
      → has a xs ≡ true
      → (has b xs ≡ true) × (depth nodes xs a < depth nodes xs b)
  Route_lt nodes xs within o {a} {b} (one g e) h = depth_lt nodes xs a b o h e (within a b e)
  Route_lt nodes xs within o {a} {b = c} (more {b} r g e) h =
      let (k, lt) = Route_lt nodes xs within o r h in
      let (k', lt') = depth_lt nodes xs b c o k e (within b c e) in (k', omega arith)
