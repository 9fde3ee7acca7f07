-- ===== src/Automation/Condition.antt =====
-- `evaluateCondition` and `evaluateConditionGroup` of packages/automation-core/src/index.ts.
pub mod Laws
pub mod Groups
use manychat.Prelude.{
  String, Bool, true, false, ◌||◌, ◌&&◌, not, List, map, all, any, includes, if◌then◌else◌,
}
use manychat.Prelude
use manychat.Prelude.Int.{ltb_ℤ}
use manychat.Value.{Value, undefined, null, num, str, arr, items, is_nullish, strict_eq}
use manychat.Automation.Graph.{
  Operator, equals, not_equals, contains, starts_with, ends_with, greater_than, greater_or_equal,
  less_than, less_or_equal, exists, not_exists, Rule, Combinator, and, or, Group,
}

abbrev is_not_equals : Operator → Bool
is_not_equals not_equals = true
is_not_equals _ = false

-- The `switch`, behind the tests for missing values.
unfoldable pub compare_values : Operator → Value → Value → Bool
compare_values equals actual expected = strict_eq actual expected
compare_values not_equals actual expected = not (strict_eq actual expected)
compare_values contains (str actual) (str expected) = includes actual expected
compare_values contains (arr actual) expected = any (λ item. strict_eq item expected) (items actual)
compare_values starts_with (str actual) (str expected) = Prelude.starts_with actual expected
compare_values ends_with (str actual) (str expected) = Prelude.ends_with actual expected
compare_values greater_than (num actual) (num expected) = ltb_ℤ expected actual
compare_values greater_or_equal (num actual) (num expected) = not (ltb_ℤ actual expected)
compare_values less_than (num actual) (num expected) = ltb_ℤ actual expected
compare_values less_or_equal (num actual) (num expected) = not (ltb_ℤ expected actual)
compare_values _ _ _ = false

unfoldable pub evaluate_condition : Operator → Value → Value → Bool
unfolding compare_values
evaluate_condition exists actual expected = not (is_nullish actual)
evaluate_condition not_exists actual expected = is_nullish actual
evaluate_condition operator actual expected =
    if is_nullish actual || is_nullish expected
    then is_not_equals operator && not (strict_eq actual expected)
    else compare_values operator actual expected

abbrev combine : Combinator → List Bool → Bool
combine and results = all (λ b. b) results
combine or results = any (λ b. b) results

unfoldable pub evaluate_condition_group : Group → (String → Value) → Bool
evaluate_condition_group group value_for = combine group.combinator (
    map (λ (rule : Rule). evaluate_condition rule.operator (value_for rule.field) rule.value)
      group.rules)
