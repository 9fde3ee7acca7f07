-- ===== src/Automation/Branch.antt =====
-- The branches of a scenario node in order of priority, and the one that a condition selects
-- (`byPriority`, `hasLegacyNodeCondition`, `edgeMatches` and the CONDITION case of
-- `simulateScenarioGraph` in packages/automation-core/src/index.ts).
pub mod Order
pub mod Laws
use manychat.Prelude.{
  ℕ, ◌-◌, ◌^◌, String, Bool, true, false, ◌||◌, ◌&&◌, not, List, [], ◌∷◌, Option, none, some, find,
  filter, leb, ◌==◌, or_else, is_some, if◌then◌else◌,
}
use manychat.Value.{Value, undefined, str, obj, Fields, end, coalesce, member, is_string}
use manychat.Automation.Graph.{
  Operator, equals, not_equals, contains, starts_with, ends_with, greater_than, greater_or_equal,
  less_than, less_or_equal, exists, not_exists, Rule, Group, Node, Edge, is_configured,
}
use manychat.Automation.Condition.{evaluate_condition, evaluate_condition_group}
use manychat.Automation.Field.{automation_value_for}

pub data HttpOutcome : Type 0 where
  success failure : HttpOutcome

pub data WaitOutcome : Type 0 where
  reply timeout : WaitOutcome

-- `undefined` stands for a member that is left out.
pub record SimulationInput : Type 0 where
  pub contact : Value
  pub custom_fields : Value
  pub event : Value
  pub http_outcome : Option HttpOutcome
  pub wait_outcome : Option WaitOutcome

-- Number.MAX_SAFE_INTEGER
abbrev max_safe_integer : ℕ
max_safe_integer = 2 ^ 53 - 1

unfoldable pub priority_of : Edge → ℕ
priority_of edge = elim edge.priority [ none ↦ max_safe_integer | some p ↦ p ]

place : Edge → List Edge → List Edge
place edge [] = edge ∷ []
place edge (other ∷ rest) =
    let later = place edge rest in
    if leb (priority_of edge) (priority_of other) then edge ∷ other ∷ rest else other ∷ later

-- `edges.slice().sort(byPriority)`: the language's sort is stable.
unfoldable pub sort_by_priority : List Edge → List Edge
unfolding place
sort_by_priority [] = []
sort_by_priority (edge ∷ edges) = place edge (sort_by_priority edges)

unfoldable pub has_legacy_node_condition : Node → Bool
has_legacy_node_condition node =
    is_string (member "field" node.config) && is_string (member "operator" node.config)

-- The operator that a text names; any other text makes `evaluateCondition` return no truth value.
abbrev pub operator_named : String → Option Operator
operator_named name =
    if name == "equals"
    then some equals
    else if name == "not_equals"
    then some not_equals
    else if name == "contains"
    then some contains
    else if name == "starts_with"
    then some starts_with
    else if name == "ends_with"
    then some ends_with
    else if name == "greater_than"
    then some greater_than
    else if name == "greater_or_equal"
    then some greater_or_equal
    else if name == "less_than"
    then some less_than
    else if name == "less_or_equal"
    then some less_or_equal
    else if name == "exists"
    then some exists
    else if name == "not_exists"
    then some not_exists
    else none

-- The reason codes of the simulation.
pub data Reason : Type 0 where
  fallback_selected condition_matched no_branch_matched : Reason
  wait_outcome_required reply_simulated timeout_simulated : Reason
  delay_skipped_in_test : Reason
  http_outcome_required http_success_simulated http_failure_simulated : Reason

abbrev pub configured : List Edge → List Edge
configured edges = filter is_configured edges

abbrev pub fallback : List Edge → Option Edge
fallback edges = find (λ edge. not (is_configured edge)) edges

abbrev pub is_empty : List Edge → Bool
is_empty [] = true
is_empty (edge ∷ edges) = false

module _ (input : SimulationInput) where
  unfoldable pub value_for : String → Value
  value_for field =
      automation_value_for (some field) (coalesce input.event (obj end))
        (coalesce input.custom_fields (obj end)) (coalesce input.contact (obj end)) undefined

  unfoldable pub rule_matches : Rule → Bool
  rule_matches rule =
      if rule.field == ""
      then false
      else evaluate_condition rule.operator (value_for rule.field) rule.value

  -- `node.config` read as a rule. It is asked for only where `has_legacy_node_condition` holds.
  abbrev pub legacy_matches : Value → Value → Value → Bool
  legacy_matches (str field) (str name) value = elim (operator_named name) [
    | none ↦ false
    | some operator ↦ rule_matches (record { field = field; operator = operator; value = value })
  ]
  legacy_matches _ _ value = false

  unfoldable pub edge_matches : Node → Edge → Bool
  unfolding rule_matches
  edge_matches node edge = elim edge.condition_group [
    | some group ↦ evaluate_condition_group group value_for
    | none ↦ elim edge.condition [
      | some rule ↦ rule_matches rule
      | none ↦
          legacy_matches (member "field" node.config) (member "operator" node.config)
            (member "value" node.config)
    ]
  ]

  -- `selected` of a CONDITION node, from its edges in order of priority.
  unfoldable pub select_condition : Node → List Edge → Option Edge
  unfolding edge_matches
  select_condition node edges =
      if is_empty (configured edges) && has_legacy_node_condition node
      then find (edge_matches node) edges
      else or_else (find (edge_matches node) (configured edges)) (fallback edges)

  -- `selected === fallback` where there are configured edges: none of them was selected.
  unfoldable pub condition_reason : Node → List Edge → Reason
  condition_reason node edges = elim (select_condition node edges) [
    | none ↦ no_branch_matched
    | some edge ↦
        if not (is_empty (configured edges))
          && not (is_some (find (edge_matches node) (configured edges)))
        then fallback_selected
        else condition_matched
  ]
