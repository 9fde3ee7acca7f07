-- ===== src/Automation/Branch/Order.antt =====
-- Sorting by priority, and the first match in a sorted list.
use mathlib.Core.List.{Perm}
use mathlib.Core.List.Perm
use mathlib.Core.Path.{subst}
use manychat.Prelude.{
  ◌≤◌, ◌≡◌, inl, inr, Bool, true, false, List, [], ◌∷◌, none, some, All, All-map, find, filter, leb,
  Bool-cases, eq_of_some-eq-some, arith,
}
use manychat.Automation.Graph.{Edge}
use manychat.Automation.Branch.{priority_of, place, sort_by_priority}

-- No edge has a lower priority value than one before it.
abbrev pub Ascending : List Edge → Type 0
Ascending [] = Unit
Ascending (e ∷ es) = All (λ f. priority_of e ≤ priority_of f) es × Ascending es

module _ (P : Edge → Type 0) where
  All-place : (e : Edge) (es : List Edge) → P e → All P es → All P (place e es)
  unfolding place
  All-place e [] p h = (p, tt)
  All-place e (f ∷ es) p (q, h) = elim (Bool-cases (leb (priority_of e) (priority_of f))) [
    | inl le ↦ rw le (p, (q, h))
    | inr gt ↦ rw gt (q, All-place e es p h)
  ]

  All-of_place : (e : Edge) (es : List Edge) → All P (place e es) → P e × All P es
  unfolding place
  All-of_place e [] h = h
  All-of_place e (f ∷ es) h = elim (Bool-cases (leb (priority_of e) (priority_of f))) [
    | inl le ↦ rw (le, place) at h
    | inr gt ↦
        let (q, later) = second (rw (gt, place) at h) in
        let (p, rest) = All-of_place e es later in (p, (q, rest))
  ]
    where
      second : P f × All P (place e es) → P f × All P (place e es)
      second x = x

  pub All-of_sort : (es : List Edge) → All P (sort_by_priority es) → All P es
  unfolding sort_by_priority
  All-of_sort [] h = h
  All-of_sort (e ∷ es) h =
      let (p, rest) = All-of_place e (sort_by_priority es) h in (p, All-of_sort es rest)

pub All-sort : (P : Edge → Type 0) (es : List Edge) → All P es → All P (sort_by_priority es)
unfolding sort_by_priority
All-sort P [] h = h
All-sort P (e ∷ es) (p, h) = All-place P e (sort_by_priority es) p (All-sort P es h)

place-Ascending : (e : Edge) (es : List Edge) → Ascending es → Ascending (place e es)
unfolding place
place-Ascending e [] h = (tt, tt)
place-Ascending e (f ∷ es) (low, h) = elim (Bool-cases (leb (priority_of e) (priority_of f))) [
  | inl le ↦
      let e_le_f : priority_of e ≤ priority_of f = ground arith in
      rw le ((e_le_f, All-map _ _ es (λ g k. omega arith) low), (low, h))
  | inr gt ↦ rw gt (
    All-place (λ g. priority_of f ≤ priority_of g) e es (ground arith) low,
    place-Ascending e es h,
  )
]

pub sort-Ascending : (es : List Edge) → Ascending (sort_by_priority es)
unfolding sort_by_priority
sort-Ascending [] = tt
sort-Ascending (e ∷ es) = place-Ascending e (sort_by_priority es) (sort-Ascending es)

place-perm : (e : Edge) (es : List Edge) → Perm (place e es) (e ∷ es)
unfolding place
place-perm e [] = Perm.refl _
place-perm e (f ∷ es) = elim (Bool-cases (leb (priority_of e) (priority_of f))) [
  | inl le ↦ rw le (Perm.refl _)
  | inr gt ↦ rw gt (Perm.trans (Perm.cons f (place-perm e es)) (Perm.swap e f es))
]

sort-perm : (es : List Edge) → Perm (sort_by_priority es) es
unfolding sort_by_priority
sort-perm [] = Perm.refl []
sort-perm (e ∷ es) = Perm.trans (place-perm e (sort_by_priority es)) (Perm.cons e (sort-perm es))

-- `edges.slice().sort(byPriority)` has the edges of the node, each as often, in ascending order.
pub sort_by_priority_sorts :
    (es : List Edge) → Perm (sort_by_priority es) es × Ascending (sort_by_priority es)
sort_by_priority_sorts es = (sort-perm es, sort-Ascending es)

filter-All :
    (P : Edge → Type 0) (keep : Edge → Bool) (es : List Edge) → All P es → All P (filter keep es)
filter-All P keep [] h = h
filter-All P keep (e ∷ es) (p, h) = elim (Bool-cases (keep e)) [
  | inl kept ↦ rw kept (p, filter-All P keep es h)
  | inr dropped ↦ rw dropped (filter-All P keep es h)
]

pub filter-Ascending :
    (keep : Edge → Bool) (es : List Edge) → Ascending es → Ascending (filter keep es)
filter-Ascending keep [] h = h
filter-Ascending keep (e ∷ es) (low, h) = elim (Bool-cases (keep e)) [
  | inl kept ↦ rw kept (filter-All _ keep es low, filter-Ascending keep es h)
  | inr dropped ↦ rw dropped (filter-Ascending keep es h)
]

-- The first edge of an ascending list that passes a test has the lowest priority value of those.
pub find-lowest :
    (test : Edge → Bool) (es : List Edge) (e : Edge)
    → Ascending es
    → find test es ≡ some e
    → (test e ≡ true) × All (λ f. test f ≡ true → priority_of e ≤ priority_of f) es
find-lowest test [] e h k = cc
find-lowest test (f ∷ es) e (low, h) k = elim (Bool-cases (test f)) [
  | inl hit ↦
      let same : f ≡ e = eq_of_some-eq-some (rw hit at k) in
      subst
        (λ x. (test x ≡ true) × All (λ g. test g ≡ true → priority_of x ≤ priority_of g) (f ∷ es))
        same (hit, (λ t. omega arith, All-map _ _ es (λ g le t. le) low))
  | inr miss ↦
      let (hit, lowest) = find-lowest test es e h (rw miss at k) in
      (hit, (λ t. cc (miss, t), lowest))
]

pub find-none :
    (test : Edge → Bool) (es : List Edge) → find test es ≡ none → All (λ f. test f ≡ false) es
find-none test [] h = tt
find-none test (e ∷ es) h = elim (Bool-cases (test e)) [
  | inl hit ↦ cc (rw hit at h)
  | inr miss ↦ (miss, find-none test es (rw miss at h))
]
