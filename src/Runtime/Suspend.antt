-- ===== src/Runtime/Suspend.antt =====
-- The nodes of `applyNode` (apps/worker/src/automation/automation-runtime.service.ts) that suspend the
-- execution: DELAY, WAIT_FOR_REPLY and EXTERNAL_HTTP_REQUEST.
use manychat.Prelude.{ℕ, ◌+◌, ◌*◌, ◌/◌, String, List, Option, none, some, find, is_some, or_else}
use manychat.Prelude.Int.{pos}
use manychat.Value.{Value, num, obj, end, coalesce, member, one, is_positive_integer}
use manychat.Automation.Graph.{Node, Edge}
use manychat.Automation.HttpConfig.{HttpConfig}
use manychat.Automation.Reply.{preprocess}
use manychat.Automation.Simulate.{output_is, default_edge}
use manychat.Runtime.Rows.{
  DelayedAction, DelayedActionStatus, WaitState, WaitStateStatus, HttpOperation, returns, Action,
  pure, throw, ◌>>◌, check, write_execution, waiting_at, of_delay, of_wait, of_request, create_once,
}
use manychat.Runtime.Project.{Project}
use manychat.Runtime.Condition.{NodeResult, suspends}

abbrev pub to_of : Option Edge → Option String
to_of none = none
to_of (some edge) = some edge.to

-- The number of a positive integer.
unfoldable pub seconds_of : Value → ℕ
seconds_of (num (pos n)) = n / one
seconds_of _ = 0

module _ (p : Project) (now : ℕ) where
  abbrev pub new_delay : String → Node → Option String → DelayedAction
  new_delay execution node resume_from = record {
    id = p.new_row_id execution node.id;
    scenario_execution_id = execution;
    node_id = node.id;
    resume_node_id = resume_from;
    status = DelayedActionStatus.pending;
    attempts = 0;
    next_attempt_at = now + seconds_of (member "delaySeconds" node.config) * 1000;
    completed_at = none;
  }

  abbrev pub add_delay : DelayedAction → Action (Unit {0})
  add_delay a rows = returns tt (record rows {
    delayed_actions =
        create_once (of_delay a.scenario_execution_id a.node_id) a rows.delayed_actions;
  })

  unfoldable pub apply_delay : String → Node → List Edge → Action NodeResult
  apply_delay execution node edges = do
    check (is_positive_integer (member "delaySeconds" node.config)) "automation_delay_invalid"
    add_delay (new_delay execution node (to_of (default_edge edges)))
    write_execution execution (waiting_at node.id)
    pure suspends

  abbrev pub new_wait : String → Node → List Edge → WaitState
  new_wait execution node edges = record {
    id = p.new_row_id execution node.id;
    scenario_execution_id = execution;
    node_id = node.id;
    criteria = coalesce (member "criteria" node.config) (obj end);
    success_node_id = to_of (or_else (find (output_is "reply") edges) (default_edge edges));
    timeout_node_id = to_of (find (output_is "timeout") edges);
    status = WaitStateStatus.active;
    expires_at = now + seconds_of (member "timeoutSeconds" node.config) * 1000;
    resolved_at = none;
    resolved_by_event_id = none;
  }

  abbrev pub add_wait : WaitState → Action (Unit {0})
  add_wait w rows = returns tt (record rows {
    wait_states = create_once (of_wait w.scenario_execution_id w.node_id) w rows.wait_states;
  })

  -- The criteria as they are written; what is stored is what the schema makes of them, which it reads as
  -- it reads them.
  unfoldable pub apply_wait : String → Node → List Edge → Action NodeResult
  unfolding preprocess
  apply_wait execution node edges = do
    check (is_positive_integer (member "timeoutSeconds" node.config)) "automation_wait_invalid"
    check
        (is_some (
          p.schemas.criteria_contract
            (preprocess (coalesce (member "criteria" node.config) (obj end)))))
        "automation_wait_criteria_invalid"
    add_wait (new_wait execution node edges)
    write_execution execution (waiting_at node.id)
    pure suspends

  abbrev pub add_request : HttpOperation → Action (Unit {0})
  add_request o rows = returns tt (record rows {
    http_operations =
        create_once (of_request o.scenario_execution_id o.node_id) o rows.http_operations;
  })

  abbrev pub queue_request : String → Node → List Edge → Option HttpConfig → Action NodeResult
  queue_request execution node edges none = throw "automation_external_http_invalid"
  queue_request execution node edges (some config) = do
    add_request (record {
      scenario_execution_id = execution;
      node_id = node.id;
      success_node_id = to_of (find (output_is "success") edges);
      failure_node_id = to_of (find (output_is "failure") edges);
      max_attempts = config.max_attempts;
    })
    write_execution execution (waiting_at node.id)
    pure suspends

  unfoldable pub queue_external_http_operation : String → Node → List Edge → Action NodeResult
  queue_external_http_operation execution node edges =
      queue_request execution node edges (p.schemas.external_http node.config)
