-- ===== src/Automation/Condition/Groups.antt =====
-- What `evaluateConditionGroup` answers, rule by rule.
use mathlib.Core.List.{Memᴰ}
use manychat.Prelude.{
  String, ◌≡◌, ◌↔◌, Bool, true, inl, inr, List, [], ◌∷◌, map, All, all, any, Bool-cases, arith,
  refl,
}
use manychat.Value.{Value}
use manychat.Automation.Graph.{Rule, and, or}
use manychat.Automation.Condition.{evaluate_condition, evaluate_condition_group}

module _ (value_for : String → Value) where
  abbrev pub test : Rule → Bool
  test rule = evaluate_condition rule.operator (value_for rule.field) rule.value

  abbrev pub Holds : Rule → Type 0
  Holds rule = test rule ≡ true

  all-map_iff : (rules : List Rule) → (all (λ b. b) (map test rules) ≡ true) ↔ All Holds rules
  all-map_iff [] = ground arith
  all-map_iff (r ∷ rules) = ground (arith, all-map_iff rules)

  some_of_any :
      (rules : List Rule)
      → any (λ b. b) (map test rules) ≡ true
      → (r : Rule) × Memᴰ r rules × Holds r
  some_of_any [] h = cc
  some_of_any (r ∷ rules) h = elim (Bool-cases (test r)) [
    | inl here ↦ (r, Memᴰ.head refl, here)
    | inr other ↦
        let (found, listed, holds) = some_of_any rules (ground arith) in
        (found, Memᴰ.tail listed, holds)
  ]

  any_of_some :
      {r : Rule} (rules : List Rule) → Memᴰ r rules → Holds r → any (λ b. b) (map test rules) ≡ true
  any_of_some [] m h = elim m [ ]
  any_of_some (r ∷ rules) (Memᴰ.head e) h = ground arith
  any_of_some (r ∷ rules) (Memᴰ.tail m) h = ground (arith, any_of_some rules m h)

  -- An AND group holds exactly when each of its rules does, an OR group exactly when one of them does.
  pub evaluate_condition_group_iff :
      (rules : List Rule)
      → ((evaluate_condition_group (record { combinator = and; rules = rules }) value_for ≡ true)
          ↔ All Holds rules)
        × ((evaluate_condition_group (record { combinator = or; rules = rules }) value_for ≡ true)
            ↔ ((r : Rule) × Memᴰ r rules × Holds r))
  unfolding evaluate_condition_group
  evaluate_condition_group_iff rules =
      (all-map_iff rules, (some_of_any rules, λ (r, m, h). any_of_some rules m h))
