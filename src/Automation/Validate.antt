-- ===== src/Automation/Validate.antt =====
-- `validateScenarioGraph` of packages/automation-core/src/index.ts.
pub mod Search
pub mod Nodes
pub mod Demands
pub mod Accepted
pub mod Cycles
use mathlib.Core.List.{foldl}
use manychat.Prelude.{
  flat_map, ℕ, suc, String, Bool, true, false, ◌||◌, ◌&&◌, not, List, [], ◌∷◌, ◌++◌, map, Option,
  none, some, has, any, filter, length, lookup, insert, is_some, is_blank, leb, ltb, nat_eq, ◌==◌,
  if◌then◌else◌,
}
use manychat.Value.{
  Value, undefined, str, obj, Fields, end, coalesce, member, is_string, is_non_empty_string,
  is_positive_integer,
}
use manychat.Automation.Graph.{
  NodeType, incoming_message, condition, add_tag, remove_tag, send_message, send_template,
  set_custom_field, clear_custom_field, delay, wait_for_reply, start_subflow, external_http_request,
  Operator, exists, not_exists, Rule, Group, Node, Edge, Graph, is_configured,
}
use manychat.Automation.HttpConfig.{HttpConfig}
use manychat.Automation.Reply.{Criteria, preprocess}
use manychat.Automation.Reach
use manychat.Automation.Cycle
use manychat.Automation.Cycle.{Outcome}
use manychat.Automation.Issue.{
  Issue, report, Schemas, schema_issue, unknown_node, comparison_value_required,
  two_condition_formats, trigger_count, trigger_without_path, unguarded_cycle, multiple_connections,
  priority_required, duplicate_priorities, multiple_fallbacks, delay_seconds_invalid,
  timeout_seconds_invalid, reply_criteria_invalid, tag_required, custom_field_required,
  subflow_unpinned, template_unpinned, templates_mixed, text_required, target_unsupported,
  telegram_connection_required, whatsapp_connection_required, http_config_invalid,
  http_status_range_invalid, http_paths_required, unreachable,
}
use manychat.Automation.Outgoing.{
  nodes_by_id, is_known, push_edge, has_known_ends, outgoing, edges_of, targets, is_continuation,
  is_guarded, ids_of,
}
use manychat.Automation.NodeChecks.{node_issues, is_undefined}

-- `edge.conditionGroup?.rules ?? (edge.condition ? [edge.condition] : [])`
abbrev rules_of : Edge → List Rule
rules_of edge = elim edge.condition_group [
  | some group ↦ group.rules
  | none ↦ elim edge.condition [ some rule ↦ rule ∷ [] | none ↦ [] ]
]

abbrev needs_value : Operator → Bool
needs_value exists = false
needs_value not_exists = false
needs_value _ = true

unfoldable pub edge_issues : Graph → Edge → List Issue
edge_issues graph edge =
    if not (is_known graph edge.from) || not (is_known graph edge.to)
    then unknown_node edge ∷ []
    else flat_map
        (λ (rule : Rule).
          report (needs_value rule.operator && is_undefined rule.value)
            (comparison_value_required edge))
        (rules_of edge)
      ++ report (is_some edge.condition && is_some edge.condition_group)
          (two_condition_formats edge)

abbrev pub is_trigger : Node → Bool
is_trigger node = elim node.type [ incoming_message ↦ true | _ ↦ false ]

abbrev pub triggers : Graph → List Node
triggers graph = filter is_trigger graph.nodes

abbrev is_empty : List Edge → Bool
is_empty [] = true
is_empty (edge ∷ edges) = false

unfoldable pub trigger_issues : Graph → List Issue
trigger_issues graph =
    report (not (nat_eq (length (triggers graph)) 1)) trigger_count
    ++ flat_map (λ (node : Node). report (is_empty (edges_of graph node.id)) trigger_without_path)
        (triggers graph)

abbrev pub fuel_for : Graph → ℕ
fuel_for graph = suc (length (ids_of graph.nodes))

-- The set `reachable` after its loop; `none` would mean that the fuel ran out.
unfoldable pub reachable : Graph → Option (List String)
reachable graph =
    Reach.visit_all (Reach.visit (targets graph) (fuel_for graph)) (ids_of (triggers graph)) []

unfoldable pub has_unguarded_cycle : Graph → Outcome
has_unguarded_cycle graph =
    Cycle.visit_each (Cycle.visit (targets graph) (is_guarded graph) (fuel_for graph))
      (ids_of graph.nodes) Cycle.start

unfoldable pub unreachable_issues : Graph → List String → List Issue
unreachable_issues graph seen =
    flat_map (λ (node : Node). report (not (has node.id seen)) (unreachable node.id)) graph.nodes

abbrev cycle_issues : Outcome → Option (List Issue)
cycle_issues Cycle.exhausted = none
cycle_issues Cycle.found = some (unguarded_cycle ∷ [])
cycle_issues (Cycle.done s) = some []

-- The list `errors` at the end, given the set `reachable` and the issue of the search for cycles.
unfoldable pub all_issues : Schemas → Graph → List String → List Issue → List Issue
all_issues schemas graph seen cycles =
    flat_map (edge_issues graph) graph.edges
    ++ (trigger_issues graph
        ++ (flat_map (node_issues schemas graph) graph.nodes
            ++ (unreachable_issues graph seen ++ cycles)))

-- The list `errors`, once the schema has parsed the graph; `warnings` stays empty. `none` would mean
-- that the fuel of a search ran out.
unfoldable pub validate_scenario_graph : Schemas → Graph → Option (List Issue)
unfolding all_issues
validate_scenario_graph schemas graph = elim (reachable graph) [
  | none ↦ none
  | some seen ↦ elim (cycle_issues (has_unguarded_cycle graph)) [
    | none ↦ none
    | some cycles ↦ some (all_issues schemas graph seen cycles)
  ]
]
