-- ===== src/Automation/NodeChecks.antt =====
-- The checks of `validateScenarioGraph` on one node and its edges
-- (packages/automation-core/src/index.ts).
use mathlib.Core.List.{foldl}
use manychat.Prelude.{
  flat_map, ℕ, String, Bool, true, false, ◌||◌, ◌&&◌, not, List, [], ◌∷◌, ◌++◌, map, Option, none,
  some, has, any, filter, length, is_some, is_blank, ltb, nat_eq, ◌==◌, if◌then◌else◌,
}
use manychat.Value.{
  Value, undefined, str, obj, Fields, end, coalesce, member, is_string, is_non_empty_string,
  is_positive_integer,
}
use manychat.Automation.Graph.{
  NodeType, condition, add_tag, remove_tag, send_message, send_template, set_custom_field,
  clear_custom_field, delay, wait_for_reply, start_subflow, external_http_request, Node, Edge,
  Graph, is_configured,
}
use manychat.Automation.HttpConfig.{HttpConfig}
use manychat.Automation.Reply.{preprocess}
use manychat.Automation.Issue.{
  Issue, report, Schemas, multiple_connections, priority_required, duplicate_priorities,
  multiple_fallbacks, delay_seconds_invalid, timeout_seconds_invalid, reply_criteria_invalid,
  tag_required, custom_field_required, subflow_unpinned, template_unpinned, templates_mixed,
  text_required, target_unsupported, telegram_connection_required, whatsapp_connection_required,
  http_config_invalid, http_status_range_invalid, http_paths_required,
}
use manychat.Automation.Outgoing.{push_edge, edges_of}

abbrev pub is_branching : NodeType → Bool
is_branching condition = true
is_branching _ = false

abbrev pub is_undefined : Value → Bool
is_undefined undefined = true
is_undefined _ = false

unfoldable pub ports : List Edge → List (String × List Edge)
unfolding push_edge
ports edges = foldl (λ m (edge : Edge). push_edge edge.output edge m) [] edges

unfoldable pub port_issues : Node → List Edge → List Issue
port_issues node edges =
    flat_map
      (λ (port : String × List Edge).
        report (not (is_branching node.type) && ltb 1 (length port.1))
          (multiple_connections node.id port.0))
      (ports edges)

abbrev pub same_priority : Option ℕ → Option ℕ → Bool
same_priority none none = true
same_priority (some a) (some b) = nat_eq a b
same_priority _ _ = false

-- `new Set(priorities)`
unfoldable pub distinct : List (Option ℕ) → List (Option ℕ)
distinct [] = []
distinct (p ∷ ps) = let rest = distinct ps in if any (same_priority p) ps then rest else p ∷ rest

unfoldable pub condition_issues : String → List Edge → List Issue
unfolding distinct
condition_issues id edges =
    let priorities = map (λ (edge : Edge). edge.priority) edges in
    report (any (λ p. not (is_some p)) priorities) (priority_required id)
    ++ report (not (nat_eq (length (distinct priorities)) (length priorities)))
        (duplicate_priorities id)
    ++ report
        (ltb 0 (length (filter is_configured edges))
          && ltb 1 (length (filter (λ edge. not (is_configured edge)) edges)))
        (multiple_fallbacks id)

unfoldable pub template_issues : Schemas → String → Fields → List Issue
template_issues schemas id config =
    let telegram =
      is_string (member "templateId" config) && is_string (member "templateVersionId" config) in
    report (not telegram && not (schemas.whatsapp_template (member "whatsAppTemplate" config)))
      (template_unpinned id)
    ++ report (telegram && not (is_undefined (member "whatsAppTemplate" config)))
        (templates_mixed id)

abbrev pub send_message_delivery_targets : List String
send_message_delivery_targets = "INCOMING_CONVERSATION" ∷ "TELEGRAM" ∷ "WHATSAPP" ∷ []

abbrev pub is_sendable : Value → Bool
is_sendable (str text) = not (is_blank text)
is_sendable _ = false

abbrev pub delivery_target : Value → String
delivery_target (str target) = target
delivery_target _ = "INCOMING_CONVERSATION"

unfoldable pub message_issues : String → Fields → List Issue
message_issues id config =
    let target = delivery_target (member "deliveryTarget" config) in
    report (not (is_sendable (member "text" config))) (text_required id)
    ++ report (not (has target send_message_delivery_targets)) (target_unsupported id)
    ++ report
        (target == "TELEGRAM" && not (is_non_empty_string (member "telegramConnectionId" config)))
        (telegram_connection_required id)
    ++ report
        (target == "WHATSAPP" && not (is_non_empty_string (member "whatsappConnectionId" config)))
        (whatsapp_connection_required id)

abbrev pub status_range_issues : String → Option HttpConfig → List Issue
status_range_issues id none = http_config_invalid id ∷ []
status_range_issues id (some config) =
    report (ltb config.success_status_maximum config.success_status_minimum)
      (http_status_range_invalid id)

abbrev pub with_output : String → List Edge → List Edge
with_output output edges = filter (λ (edge : Edge). edge.output == output) edges

unfoldable pub http_issues : Schemas → String → Fields → List Edge → List Issue
http_issues schemas id config edges =
    status_range_issues id (schemas.external_http config)
    ++ report
        (not (nat_eq (length (with_output "success" edges)) 1)
          || not (nat_eq (length (with_output "failure" edges)) 1))
        (http_paths_required id)

-- The blocks that test `node.type`: each type has at most one, but for SEND_MESSAGE, whose two follow
-- each other.
unfoldable pub type_issues : Schemas → NodeType → String → Fields → List Edge → List Issue
unfolding condition_issues template_issues message_issues http_issues preprocess
type_issues schemas condition id config edges = condition_issues id edges
type_issues schemas delay id config edges =
    report (not (is_positive_integer (member "delaySeconds" config))) (delay_seconds_invalid id)
type_issues schemas wait_for_reply id config edges =
    report (not (is_positive_integer (member "timeoutSeconds" config))) (timeout_seconds_invalid id)
    ++ report
        (not (
          is_some (
            schemas.criteria_contract
              (preprocess (coalesce (member "criteria" config) (obj end))))))
        (reply_criteria_invalid id)
type_issues schemas add_tag id config edges =
    report (not (is_non_empty_string (member "tagId" config))) (tag_required id)
type_issues schemas remove_tag id config edges =
    report (not (is_non_empty_string (member "tagId" config))) (tag_required id)
type_issues schemas set_custom_field id config edges =
    report (not (is_non_empty_string (member "key" config))) (custom_field_required id)
type_issues schemas clear_custom_field id config edges =
    report (not (is_non_empty_string (member "key" config))) (custom_field_required id)
type_issues schemas start_subflow id config edges =
    report
      (not (is_string (member "scenarioId" config))
        || not (is_string (member "scenarioVersionId" config)))
      (subflow_unpinned id)
type_issues schemas send_template id config edges = template_issues schemas id config
type_issues schemas send_message id config edges = message_issues id config
type_issues schemas external_http_request id config edges = http_issues schemas id config edges
type_issues schemas _ id config edges = []

unfoldable pub node_issues : Schemas → Graph → Node → List Issue
unfolding type_issues port_issues
node_issues schemas graph node =
    port_issues node (edges_of graph node.id)
    ++ type_issues schemas node.type node.id node.config (edges_of graph node.id)
