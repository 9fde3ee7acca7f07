-- ===== src/Automation/Condition/Laws.antt =====
-- What `evaluateCondition` answers.
use Prim.Native.String.{◌++◌}
use manychat.Prelude.{String, ◌≡◌, ◌↔◌, true, not, ◌&&◌, ◌||◌, arith, eq_iff}
use manychat.Prelude.Text.Laws.{starts_with_iff, ends_with_iff, includes_iff}
use manychat.Prelude.Int.{ℤ}
use manychat.Value.{Value, num, str, is_nullish, strict_eq}
use manychat.Automation.Graph.{
  equals, not_equals, contains, starts_with, ends_with, greater_than, greater_or_equal, less_than,
  less_or_equal,
}
use manychat.Automation.Condition.{evaluate_condition}

module _ (actual expected : Value) where
  -- `not_equals` is the negation of `===` on every pair of values, missing ones included; `equals` is
  -- `===` on values that are both there, and is false of missing values, also of two that are the same.
  pub equals_not_equals :
      (evaluate_condition not_equals actual expected ≡ not (strict_eq actual expected))
      × (evaluate_condition equals actual expected
          ≡ (not (is_nullish actual) && not (is_nullish expected) && strict_eq actual expected))
  unfolding evaluate_condition
  equals_not_equals = ground arith

module _ (a b : ℤ) where
  -- Of two numbers exactly one of `less_than`, `equals`, `greater_than` holds, and the two operators
  -- with `or_equal` are the disjunctions.
  pub number_order :
      (evaluate_condition greater_or_equal (num a) (num b) ≡ (
        evaluate_condition greater_than (num a) (num b)
        || evaluate_condition equals (num a) (num b)))
      × (evaluate_condition less_or_equal (num a) (num b) ≡ (
          evaluate_condition less_than (num a) (num b)
          || evaluate_condition equals (num a) (num b)))
      × (evaluate_condition less_than (num a) (num b)
          ≡ evaluate_condition greater_than (num b) (num a))
      × (evaluate_condition less_than (num a) (num b)
          ≡ not (
              evaluate_condition greater_than (num a) (num b)
              || evaluate_condition equals (num a) (num b)))
  unfolding evaluate_condition strict_eq
  number_order = (ground arith, ground arith, ground arith, ground arith)

module _ (s t : String) where
  -- On texts, `contains`, `starts_with` and `ends_with` say that the actual text is the expected one
  -- with text around it, after it, or before it.
  pub text_operators :
      ((evaluate_condition contains (str s) (str t) ≡ true)
        ↔ ((l : String) × (r : String) × (s ≡ l ++ (t ++ r))))
      × ((evaluate_condition starts_with (str s) (str t) ≡ true) ↔ ((r : String) × (s ≡ t ++ r)))
      × ((evaluate_condition ends_with (str s) (str t) ≡ true) ↔ ((l : String) × (s ≡ l ++ t)))
      × ((evaluate_condition equals (str s) (str t) ≡ true) ↔ (s ≡ t))
  unfolding evaluate_condition strict_eq
  text_operators = (includes_iff s t, starts_with_iff s t, ends_with_iff s t, eq_iff s t)
