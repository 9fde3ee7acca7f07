-- ===== src/Automation/Cycle/Total.antt =====
-- The search for cycles does not run out of fuel: the ids on the stack differ, so it is at most as deep
-- as the graph has nodes.
use mathlib.Core.List.{tail}
use manychat.Prelude.{
  ℕ, zero, suc, ◌<◌, String, ◌≡◌, ◌≢◌, refl, ap, ◌∙◌, inl, inr, Bool, true, List, [], ◌∷◌, has, any,
  has-cons_self, has-cons_later, Bool-cases, length, arith,
}
use manychat.Automation.Reach.Total.{unseen, unseen-le-length, unseen-cons_lt}
use manychat.Automation.Cycle.{
  State, Outcome, exhausted, found, done, segment, visit_each, enter, leave, visit, start,
}

-- The call ended, and if it goes on then with the stack of `s`.
abbrev EndsAt : State → Outcome → Type 0
EndsAt s exhausted = ⊥
EndsAt s found = Unit
EndsAt s (done s') = s'.visiting ≡ s.visiting

EndsAt-trans : (s t : State) (o : Outcome) → t.visiting ≡ s.visiting → EndsAt t o → EndsAt s o
EndsAt-trans s t exhausted e h = h
EndsAt-trans s t found e h = h
EndsAt-trans s t (done u) e h = h ∙ e

leave-EndsAt :
    (id : String) (s : State) (o : Outcome) → EndsAt (enter id s) o → EndsAt s (leave id o)
leave-EndsAt id s exhausted h = h
leave-EndsAt id s found h = h
leave-EndsAt id s (done s') h = ap tail h

ne-exhausted_of_EndsAt : (s : State) (o : Outcome) → EndsAt s o → o ≢ exhausted
ne-exhausted_of_EndsAt s exhausted h e = h
ne-exhausted_of_EndsAt s found h e = cc
ne-exhausted_of_EndsAt s (done s') h e = cc

module _ (targets : String → List String) (guarded : String → Bool) (nodes : List String)
    (within : (x y : String) → has y (targets x) ≡ true → has y nodes ≡ true) where
  abbrev Ends : ℕ → (String → State → Outcome) → Type 0
  Ends bound step =
      (id : String) (s : State)
      → has id nodes ≡ true
      → unseen nodes s.visiting < bound
      → EndsAt s (step id s)

  visit_each-EndsAt :
      (bound : ℕ) (step : String → State → Outcome)
      → Ends bound step
      → (ids : List String) (s : State) → ((x : String) → has x ids ≡ true → has x nodes ≡ true)
      → unseen nodes s.visiting < bound
      → EndsAt s (visit_each step ids s)
  unfolding visit_each
  visit_each-EndsAt bound step ends [] s known few = refl
  visit_each-EndsAt bound step ends (id ∷ ids) s known few =
      go (step id s) (ends id s (known id (has-cons_self id ids)) few) (λ s' e.
        visit_each-EndsAt bound step ends ids s' (λ x h. known x (has-cons_later x id ids h))
          (rw e few))
    where
      go :
          (o : Outcome)
          → EndsAt s o
          → ((s' : State) → s'.visiting ≡ s.visiting → EndsAt s' (visit_each step ids s'))
          → EndsAt s
              (elim o [ exhausted ↦ exhausted | found ↦ found | done s' ↦ visit_each step ids s' ])
      go exhausted h rest = h
      go found h rest = h
      go (done s') h rest = EndsAt-trans s s' (visit_each step ids s') h (rest s' h)

  visit-Ends : (fuel : ℕ) → Ends fuel (visit targets guarded fuel)
  unfolding visit
  visit-Ends zero id s known few = absurd (omega arith)
  visit-Ends (suc fuel) id s known few = elim (Bool-cases (has id s.visiting)) [
    | inl on ↦ elim (Bool-cases (any guarded (segment id s.visiting))) [
      | inl some_guard ↦ rw (on, some_guard) refl
      | inr no_guard ↦ rw (on, no_guard) tt
    ]
    | inr off ↦ elim (Bool-cases (has id s.visited)) [
      | inl old ↦ rw (off, old) refl
      | inr new ↦
          rw (off, new)
            (leave-EndsAt id s (visit_each (visit targets guarded fuel) (targets id) (enter id s)) (
              visit_each-EndsAt fuel (visit targets guarded fuel) (visit-Ends fuel) (targets id)
                (enter id s) (within id)
                (omega (arith, unseen-cons_lt nodes s.visiting id known off))))
    ]
  ]

  pub visit_each-ne-exhausted :
      (ids : List String)
      → ((x : String) → has x ids ≡ true → has x nodes ≡ true)
      → visit_each (visit targets guarded (suc (length nodes))) ids start ≢ exhausted
  visit_each-ne-exhausted ids known = ne-exhausted_of_EndsAt start _ (
      visit_each-EndsAt (suc (length nodes)) (visit targets guarded (suc (length nodes)))
        (visit-Ends (suc (length nodes))) ids start known (omega (arith, unseen-le-length nodes)))
