-- ===== src/Runtime/Node.antt =====
-- `applyNode` of apps/worker/src/automation/automation-runtime.service.ts. `call` runs the graph of a
-- subflow. What the run of a node shows as its output is left out.
use manychat.Prelude.{
  ℕ, ◌+◌, String, Bool, true, false, not, ◌&&◌, List, Option, none, some, find, leb, ◌==◌,
  if◌then◌else◌,
}
use manychat.Value.{Value, bool, obj, end, member}
use manychat.HttpOutbox.Row.{ExecutionStatus}
use manychat.Automation.Graph.{
  NodeType, incoming_message, condition, add_tag, remove_tag, send_message, send_template,
  create_or_update_lead, forward_to_crm, set_custom_field, clear_custom_field, delay,
  wait_for_reply, start_subflow, external_http_request, pause_automation, resume_automation, stop,
  Node, Edge, Graph,
}
use manychat.Automation.Simulate.{default_edge}
use manychat.Runtime.Rows.{
  by_subflow, same_trigger, ScenarioExecution, CrmOperationType, returns, Action, pure, throw,
  ◌>>=◌, ◌>>◌, check, write_execution, waiting_at, is_ended, create_once,
}
use manychat.Runtime.Project.{RuntimeContext, Project}
use manychat.Runtime.Condition.{NodeResult, goes_to, suspends, apply_condition}
use manychat.Runtime.Suspend.{to_of, apply_delay, apply_wait, queue_external_http_operation}
use manychat.Runtime.Effects.{
  text_of, apply_set_field, apply_clear_field, set_automation, apply_tag, queue_message,
  queue_crm_operation,
}

-- The record that `result` of a node that only writes is.
abbrev pub then_default : List Edge → RuntimeContext → Action (NodeResult × RuntimeContext)
then_default edges context = pure (goes_to (default_edge edges), context)

abbrev pub keeping : RuntimeContext → NodeResult → Action (NodeResult × RuntimeContext)
keeping context result = pure (result, context)

module _ (p : Project) (now : ℕ)
    (call : Graph → String → RuntimeContext → Option String → Action (Unit {0})) where
  abbrev pub new_child :
      String → Node → Option String → RuntimeContext → String → String → ScenarioExecution
  new_child execution node resume_from context scenario version =
      let key = by_subflow execution node.id in
      record {
        id = p.new_execution_id scenario key;
        scenario_id = scenario;
        scenario_version_id = version;
        trigger_event_id = context.normalized_event_id;
        trigger_key = key;
        parent_execution_id = some execution;
        resume_node_id = resume_from;
        status = ExecutionStatus.running;
        current_node_id = none;
        variables = obj end;
        completed_at = none;
      }

  -- `upsert` by the scenario and the trigger's key, with the row that then stands there
  abbrev pub of_trigger : ScenarioExecution → ScenarioExecution → Bool
  of_trigger e other =
      other.scenario_id == e.scenario_id && same_trigger other.trigger_key e.trigger_key

  abbrev pub or_new : ScenarioExecution → Option ScenarioExecution → ScenarioExecution
  or_new e none = e
  or_new e (some old) = old

  unfoldable pub upsert_execution : ScenarioExecution → Action ScenarioExecution
  upsert_execution e rows =
      returns (or_new e (find (of_trigger e) rows.executions))
        (record rows { executions = create_once (of_trigger e) e rows.executions })

  abbrev pub run_child : Option Graph → ScenarioExecution → RuntimeContext → Action (Unit {0})
  run_child none child context = throw "automation_subflow_graph_invalid"
  run_child (some graph) child context =
      if is_ended child.status
      then pure tt
      else call graph child.id (record context { subflow_depth = context.subflow_depth + 1 }) none

  -- `node.config.await !== false`
  abbrev pub awaits : Value → Bool
  awaits (bool false) = false
  awaits _ = true

  abbrev pub start_version :
      String
      → Node
      → List Edge
      → RuntimeContext
      → String
      → String
      → Option (Option Graph)
      → Action NodeResult
  start_version execution node edges context scenario version none =
      throw "automation_subflow_unpublished"
  start_version execution node edges context scenario version (some graph) = do
    check (p.is_published scenario version) "automation_subflow_unpublished"
    child ←
        upsert_execution
          (new_child execution node (to_of (default_edge edges)) context scenario version)
    if awaits (member "await" node.config)
        then write_execution execution (waiting_at node.id)
        else pure tt
    run_child graph child context
    pure (if awaits (member "await" node.config) then suspends else goes_to (default_edge edges))

  abbrev pub start_pinned :
      String → Node → List Edge → RuntimeContext → Option String → Option String → Action NodeResult
  start_pinned execution node edges context (some scenario) (some version) = do
    check (not (leb 10 context.subflow_depth)) "automation_subflow_depth_exceeded"
    start_version execution node edges context scenario version (p.definition version)
  start_pinned execution node edges context _ _ = throw "automation_subflow_invalid"

  unfoldable pub apply_subflow : String → Node → List Edge → RuntimeContext → Action NodeResult
  unfolding upsert_execution
  apply_subflow execution node edges context =
      start_pinned execution node edges context (text_of (member "scenarioId" node.config))
        (text_of (member "scenarioVersionId" node.config))

  -- The chain of `if`s on the node's type, with the context that the node leaves.
  unfoldable pub apply_node :
      NodeType → String → Node → List Edge → RuntimeContext → Action (NodeResult × RuntimeContext)
  apply_node stop execution node edges context = keeping context (goes_to none)
  apply_node condition execution node edges context =
      keeping context (apply_condition context node edges)
  apply_node delay execution node edges context =
      apply_delay p now execution node edges >>= keeping context
  apply_node wait_for_reply execution node edges context =
      apply_wait p now execution node edges >>= keeping context
  apply_node start_subflow execution node edges context =
      apply_subflow execution node edges context >>= keeping context
  apply_node external_http_request execution node edges context =
      queue_external_http_operation p now execution node edges >>= keeping context
  apply_node set_custom_field execution node edges context =
      apply_set_field p now node context >>= then_default edges
  apply_node clear_custom_field execution node edges context =
      apply_clear_field p now node context >>= then_default edges
  apply_node pause_automation execution node edges context =
      set_automation p now false >> then_default edges context
  apply_node resume_automation execution node edges context =
      set_automation p now true >> then_default edges context
  apply_node add_tag execution node edges context =
      apply_tag p now true node >> then_default edges context
  apply_node remove_tag execution node edges context =
      apply_tag p now false node >> then_default edges context
  apply_node send_message execution node edges context =
      queue_message p now execution node context >> then_default edges context
  apply_node send_template execution node edges context =
      queue_message p now execution node context >> then_default edges context
  apply_node create_or_update_lead execution node edges context =
      queue_crm_operation p now CrmOperationType.create_or_update_lead execution node context
      >> then_default edges context
  apply_node forward_to_crm execution node edges context =
      queue_crm_operation p now CrmOperationType.forward_inbound_message execution node context
      >> then_default edges context
  apply_node incoming_message execution node edges context = then_default edges context
