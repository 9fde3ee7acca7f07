-- ===== src/Automation/Cycle/Sound.antt =====
-- A cycle that the search reports is there.
use mathlib.Core.List.{tail}
use manychat.Prelude.{
  ℕ, zero, suc, String, ◌≡◌, refl, ap, ◌∙◌, inl, inr, Bool, true, false, List, [], ◌∷◌, has, any,
  has-cons_self, has-cons_later, Bool-cases, arith, ◌==◌, eq_iff,
}
use manychat.Automation.Cycle.{
  State, Outcome, exhausted, found, done, segment, visit_each, enter, leave, visit, Route, one,
  more, UnguardedCycle, start,
}

module _ (targets : String → List String) (guarded : String → Bool) where
  -- Each id but the last has an edge from the one after it.
  abbrev Chain : List String → Type 0
  Chain [] = Unit
  Chain (x ∷ []) = Unit
  Chain (x ∷ y ∷ rest) = (has x (targets y) ≡ true) × Chain (y ∷ rest)

  Route_of_segment :
      (id y : String) (stack : List String)
      → Chain (y ∷ stack)
      → has id stack ≡ true
      → any guarded (segment id stack) ≡ false
      → Route targets guarded id y
  unfolding segment
  Route_of_segment id y [] c h n = cc
  Route_of_segment id y (z ∷ rest) (edge, c) h n = elim (Bool-cases (z == id)) [
    | inl same ↦
        let e : z ≡ id = (eq_iff z id).0 same in one (rw (← e) (ground arith)) (rw (← e) edge)
    | inr other ↦
        more (Route_of_segment id z rest c (ground arith) (ground arith)) (ground arith) edge
  ]

  -- What an outcome says, for a call from `s`.
  abbrev Says : State → Outcome → Type 0
  Says s exhausted = Unit
  Says s found = UnguardedCycle targets guarded
  Says s (done s') = s'.visiting ≡ s.visiting

  Says-trans : (s t : State) (o : Outcome) → t.visiting ≡ s.visiting → Says t o → Says s o
  Says-trans s t exhausted e h = tt
  Says-trans s t found e h = h
  Says-trans s t (done u) e h = h ∙ e

  visit_each-Says :
      (step : String → State → Outcome)
      → ((id : String) (s : State) → Chain (id ∷ s.visiting) → Says s (step id s))
      → (ids : List String) (s : State) → ((x : String) → has x ids ≡ true → Chain (x ∷ s.visiting))
      → Says s (visit_each step ids s)
  unfolding visit_each
  visit_each-Says step each [] s linked = refl
  visit_each-Says step each (id ∷ ids) s linked =
      go (step id s) (each id s (linked id (has-cons_self id ids))) (λ s' e.
        visit_each-Says step each ids s' (λ x h. rw e (linked x (has-cons_later x id ids h))))
    where
      go :
          (o : Outcome)
          → Says s o
          → ((s' : State) → s'.visiting ≡ s.visiting → Says s' (visit_each step ids s'))
          → Says s
              (elim o [ exhausted ↦ exhausted | found ↦ found | done s' ↦ visit_each step ids s' ])
      go exhausted h rest = tt
      go found h rest = h
      go (done s') h rest = Says-trans s s' (visit_each step ids s') h (rest s' h)

  leave-Says : (id : String) (s : State) (o : Outcome) → Says (enter id s) o → Says s (leave id o)
  leave-Says id s exhausted h = tt
  leave-Says id s found h = h
  leave-Says id s (done s') h = ap tail h

  Chain-cons :
      (id x : String) (stack : List String)
      → Chain (id ∷ stack)
      → has x (targets id) ≡ true
      → Chain (x ∷ id ∷ stack)
  Chain-cons id x stack c e = (e, c)

  pub visit-Says :
      (fuel : ℕ) (id : String) (s : State)
      → Chain (id ∷ s.visiting)
      → Says s (visit targets guarded fuel id s)
  unfolding visit
  visit-Says zero id s c = tt
  visit-Says (suc fuel) id s c =
      let below =
        leave-Says id s (visit_each (visit targets guarded fuel) (targets id) (enter id s)) (
          visit_each-Says (visit targets guarded fuel) (visit-Says fuel) (targets id) (enter id s)
            (λ x h. (h, c))) in
      elim (Bool-cases (has id s.visiting)) [
        | inl on ↦ elim (Bool-cases (any guarded (segment id s.visiting))) [
          | inl some_guard ↦ rw (on, some_guard) refl
          | inr no_guard ↦ rw (on, no_guard) (id, Route_of_segment id id s.visiting c on no_guard)
        ]
        | inr off ↦ elim (Bool-cases (has id s.visited)) [
          | inl old ↦ rw (off, old) refl
          | inr new ↦ rw (off, new) below
        ]
      ]

  cycle_of_Says : (s : State) (o : Outcome) → Says s o → o ≡ found → UnguardedCycle targets guarded
  cycle_of_Says s exhausted h e = cc
  cycle_of_Says s found h e = h
  cycle_of_Says s (done s') h e = cc

  pub visit_each_sound :
      (fuel : ℕ) (ids : List String)
      → visit_each (visit targets guarded fuel) ids start ≡ found
      → UnguardedCycle targets guarded
  visit_each_sound fuel ids e =
      cycle_of_Says start (visit_each (visit targets guarded fuel) ids start)
        (visit_each-Says (visit targets guarded fuel) (visit-Says fuel) ids start (λ x h. tt)) e
