-- ===== src/Runtime/Condition.antt =====
-- The CONDITION case of `applyNode` of apps/worker/src/automation/automation-runtime.service.ts.
use manychat.Prelude.{
  String, Bool, true, false, ◌&&◌, List, Option, none, some, find, is_some, or_else, if◌then◌else◌,
}
use manychat.Value.{Value, str, obj, member}
use manychat.Automation.Graph.{Node, Edge}
use manychat.Automation.Condition.{evaluate_condition, evaluate_condition_group}
use manychat.Automation.Field.{automation_value_for}
use manychat.Automation.Branch.{
  Reason, condition_matched, fallback_selected, no_branch_matched, sort_by_priority,
  has_legacy_node_condition, configured, fallback, is_empty, operator_named,
}
use manychat.Runtime.Project.{RuntimeContext}

pub record NodeResult : Type 0 where
  pub next : Option Edge
  pub reason_code : Option Reason
  pub suspended : Bool

abbrev pub goes_to : Option Edge → NodeResult
goes_to next = record { next = next; reason_code = none; suspended = false }

abbrev pub suspends : NodeResult
suspends = record { next = none; reason_code = none; suspended = true }

module _ (context : RuntimeContext) where
  unfoldable pub runtime_value_for : String → Value
  runtime_value_for field =
      automation_value_for (some field) context.event_payload context.custom_fields
        (obj context.contact_variables) context.variables

  abbrev pub config_matches : Value → Value → Value → Bool
  config_matches (str field) (str name) value = elim (operator_named name) [
    | none ↦ false
    | some operator ↦ evaluate_condition operator (runtime_value_for field) value
  ]
  config_matches _ _ value = false

  -- `matches`. The configuration of the node is read only where it has both texts.
  unfoldable pub branch_matches : Node → Edge → Bool
  branch_matches node edge = elim edge.condition_group [
    | some group ↦ evaluate_condition_group group runtime_value_for
    | none ↦ elim edge.condition [
      | some rule ↦ evaluate_condition rule.operator (runtime_value_for rule.field) rule.value
      | none ↦
          config_matches (member "field" node.config) (member "operator" node.config)
            (member "value" node.config)
    ]
  ]

  abbrev pub is_legacy : Node → List Edge → Bool
  is_legacy node edges = is_empty (configured edges) && has_legacy_node_condition node

  -- `next` before the fallback
  unfoldable pub matched_branch : Node → List Edge → Option Edge
  unfolding branch_matches
  matched_branch node sorted =
      if is_legacy node sorted
      then find (branch_matches node) sorted
      else find (branch_matches node) (configured sorted)

  unfoldable pub apply_condition : Node → List Edge → NodeResult
  unfolding matched_branch
  apply_condition node edges =
      let sorted = sort_by_priority edges in
      let spare = if is_legacy node sorted then none else fallback sorted in
      record {
        next = or_else (matched_branch node sorted) spare;
        reason_code = some (
            if is_some (matched_branch node sorted)
            then condition_matched
            else if is_some spare
            then fallback_selected
            else no_branch_matched);
        suspended = false;
      }
