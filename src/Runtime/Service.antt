-- ===== src/Runtime/Service.antt =====
-- The public methods of `AutomationRuntimeService`
-- (apps/worker/src/automation/automation-runtime.service.ts), and the scan of
-- apps/worker/src/automation/automation-continuation.service.ts. Each is an action, whose error rolls it
-- back; `fuel` is that of `execute_graph`.
use manychat.Prelude.{
  ℕ, zero, suc, map, ◌+◌, String, Bool, true, false, ◌&&◌, ◌||◌, List, [], ◌∷◌, Option, none, some,
  find, filter, leb, ◌==◌, if◌then◌else◌,
}
use manychat.Value.{Value, obj, end}
use manychat.HttpOutbox.Row.{ExecutionStatus, NodeStatus}
use manychat.Automation.Graph.{Graph}
use manychat.Automation.Reply.{matches_wait_for_reply_criteria}
use manychat.Runtime.Rows.{
  contact_variables_of, by_event, ScenarioExecution, DelayedAction, DelayedActionStatus, WaitState,
  WaitStateStatus, NodeRun, Rows, Completion, exhausted, throws, returns, Action, pure, ◌>>=◌, ◌>>◌,
  update_rows, find_execution, write_execution, is_ended, is_pending_action, is_active_wait, of_run,
}
use manychat.Runtime.Project.{RuntimeContext, Project, object}
use manychat.Runtime.Merge.{deep_merge}
use manychat.Runtime.Node.{upsert_execution}
use manychat.Runtime.Run.{resume_execution, execute_graph, run_graph}

abbrev pub is_action : String → DelayedAction → Bool
is_action id a = a.id == id

abbrev pub is_wait : String → WaitState → Bool
is_wait id w = w.id == id

abbrev pub write_actions :
    (DelayedAction → Bool) → (DelayedAction → DelayedAction) → Action (Unit {0})
write_actions test change rows =
    returns tt (record rows { delayed_actions = update_rows test change rows.delayed_actions })

abbrev pub write_waits : (WaitState → Bool) → (WaitState → WaitState) → Action (Unit {0})
write_waits test change rows =
    returns tt (record rows { wait_states = update_rows test change rows.wait_states })

abbrev pub is_open_wait : String → WaitState → Bool
is_open_wait id w = is_wait id w && is_active_wait w.status

abbrev pub time_out : ℕ → WaitState → WaitState
time_out now w = record w { resolved_at = some now; status = WaitStateStatus.timed_out }

abbrev pub resolve_by : String → ℕ → WaitState → WaitState
resolve_by event now w = record w {
  resolved_at = some now;
  resolved_by_event_id = some event;
  status = WaitStateStatus.resolved;
}

abbrev pub is_processing_action : DelayedActionStatus → Bool
is_processing_action DelayedActionStatus.processing = true
is_processing_action _ = false

abbrev pub take_action : DelayedAction → DelayedAction
take_action a = record a { attempts = a.attempts + 1; status = DelayedActionStatus.processing }

abbrev pub complete_action : ℕ → DelayedAction → DelayedAction
complete_action now a = record a { completed_at = some now; status = DelayedActionStatus.completed }

-- `orderBy` with a stable order, and `take`
unfoldable pub place_row : {A : Type 0} → (A → ℕ) → A → List A → List A
place_row at row [] = row ∷ []
place_row at row (other ∷ rows) =
    let later = place_row at row rows in
    if leb (at row) (at other) then row ∷ other ∷ rows else other ∷ later

unfoldable pub order_by : {A : Type 0} → (A → ℕ) → List A → List A
unfolding place_row
order_by at [] = []
order_by at (row ∷ rows) = place_row at row (order_by at rows)

abbrev pub first : {A : Type 0} → ℕ → List A → List A
first zero rows = []
first (suc take) [] = []
first (suc take) (row ∷ rows) = row ∷ first take rows

abbrev pub is_due_action : ℕ → DelayedAction → Bool
is_due_action now a = leb a.next_attempt_at now && is_pending_action a.status

abbrev pub is_due_wait : ℕ → WaitState → Bool
is_due_wait now w = leb w.expires_at now && is_active_wait w.status

unfoldable pub due_actions : ℕ → ℕ → Rows → List String
unfolding order_by
due_actions now take rows =
    map (λ (a : DelayedAction). a.id)
      (first take (
        order_by (λ (a : DelayedAction). a.next_attempt_at)
          (filter (is_due_action now) rows.delayed_actions)))

unfoldable pub due_waits : ℕ → ℕ → Rows → List String
unfolding order_by
due_waits now take rows =
    map (λ (w : WaitState). w.id)
      (first take
        (order_by (λ (w : WaitState). w.expires_at) (filter (is_due_wait now) rows.wait_states)))

-- The `catch`: whatever was thrown, another error is.
abbrev pub or_failed : Completion (Unit {0}) → Completion (Unit {0})
or_failed exhausted = exhausted
or_failed (throws e) = throws "automation_delay_resume_failed"
or_failed (returns u rows) = returns u rows

-- `scanOnce` of the continuation (apps/worker/src/automation/automation-continuation.service.ts). Every
-- method has a transaction of its own, and the first error ends the scan; `true` says that it ran to
-- its end.
unfoldable pub each : (String → Action (Unit {0})) → List String → Rows → Bool × Rows
each run [] rows = (true, rows)
each run (id ∷ ids) rows = elim (run id rows) [
  | exhausted ↦ (false, rows)
  | throws e ↦ (false, rows)
  | returns u after ↦ each run ids after
]

abbrev pub then_each : (String → Action (Unit {0})) → List String → Bool × Rows → Bool × Rows
then_each run ids (false, rows) = (false, rows)
then_each run ids (true, rows) = each run ids rows

module _ (p : Project) (lower : String → String) (fuel now : ℕ) where
  abbrev pub resume_from : String → Option String → Option String → Action (Unit {0})
  resume_from = resume_execution p now (run_graph p now fuel)

  abbrev pub resume_action : DelayedAction → Action (Unit {0})
  resume_action a rows = or_failed (
      (do
        write_actions (λ b. is_action a.id b && is_pending_action b.status) take_action
        resume_from a.scenario_execution_id a.resume_node_id none
        write_actions (λ b. is_action a.id b && is_processing_action b.status)
            (complete_action now))
        rows)

  abbrev pub resume_pending : Option DelayedAction → Action (Unit {0})
  resume_pending none = pure tt
  resume_pending (some a) = if is_pending_action a.status then resume_action a else pure tt

  unfoldable pub resume_delayed_action : String → Action (Unit {0})
  resume_delayed_action id rows = resume_pending (find (is_action id) rows.delayed_actions) rows

  abbrev pub end_wait : WaitState → Action (Unit {0})
  end_wait w = do
    write_waits (is_open_wait w.id) (time_out now)
    resume_from w.scenario_execution_id w.timeout_node_id none

  abbrev pub end_expired : Option WaitState → Action (Unit {0})
  end_expired none = pure tt
  end_expired (some w) =
      if is_active_wait w.status && leb w.expires_at now then end_wait w else pure tt

  unfoldable pub timeout_wait : String → Action (Unit {0})
  timeout_wait id rows = end_expired (find (is_wait id) rows.wait_states) rows

  abbrev pub has_active : String → List WaitState → Bool
  has_active id [] = false
  has_active id (w ∷ waits) = (is_wait id w && is_active_wait w.status) || has_active id waits

  abbrev pub resolve : String → WaitState → Action (Unit {0})
  resolve event w = do
    write_waits (is_open_wait w.id) (resolve_by event now)
    resume_from w.scenario_execution_id w.success_node_id (some event)

  abbrev pub resolve_one : String → Value → WaitState → Action (Unit {0})
  resolve_one event payload w rows =
      if matches_wait_for_reply_criteria p.schemas.criteria_contract lower w.criteria payload
        && has_active w.id rows.wait_states
      then resolve event w rows
      else returns tt rows

  -- The waits that were active when the event came, each if it still is.
  unfoldable pub resolve_each : String → Value → List WaitState → Action (Unit {0})
  resolve_each event payload [] = pure tt
  resolve_each event payload (w ∷ waits) = do
    resolve_one event payload w
    resolve_each event payload waits

  abbrev pub resolve_for : String → Option Value → Action (Unit {0})
  resolve_for event none rows = returns tt rows
  resolve_for event (some payload) rows =
      resolve_each event payload (filter (λ w. is_active_wait w.status) rows.wait_states) rows

  unfoldable pub resolve_waits : String → Action (Unit {0})
  unfolding resolve_each
  resolve_waits event = resolve_for event (p.event_payload event)

  abbrev pub new_execution : String → String → String → ScenarioExecution
  new_execution event scenario version = record {
    id = p.new_execution_id scenario (by_event event);
    scenario_id = scenario;
    scenario_version_id = version;
    trigger_event_id = event;
    trigger_key = by_event event;
    parent_execution_id = none;
    resume_node_id = none;
    status = ExecutionStatus.running;
    current_node_id = none;
    variables = obj end;
    completed_at = none;
  }

  -- `executeGraph` changes the context that it is given.
  abbrev pub trigger_scenario :
      RuntimeContext → String → String → Option (Option Graph) → Action RuntimeContext
  trigger_scenario context scenario version (some (some graph)) = do
    execution ←
        upsert_execution p now (run_graph p now fuel)
          (new_execution context.normalized_event_id scenario version)
    if is_ended execution.status
        then pure context
        else execute_graph p now fuel graph execution.id context none
  trigger_scenario context scenario version _ = pure context

  -- One context for all scenarios: each begins with what the ones before it have made of it.
  unfoldable pub trigger_each : RuntimeContext → List (String × String) → Action (Unit {0})
  trigger_each context [] = pure tt
  trigger_each context ((scenario, version) ∷ scenarios) = do
    after ← trigger_scenario context scenario version (p.definition version)
    trigger_each after scenarios

  abbrev pub mode_or : Option Bool → Bool → Bool
  mode_or none enabled = enabled
  mode_or (some mode) enabled = mode

  abbrev pub trigger_for : String → Option Value → Action (Unit {0})
  trigger_for event none rows = returns tt rows
  trigger_for event (some payload) rows =
      if mode_or p.automation_mode_override rows.contact.automation_enabled
      then trigger_each
          (record {
            normalized_event_id = event;
            contact_variables = contact_variables_of rows.contact;
            custom_fields = rows.contact.custom_fields;
            event_payload = payload;
            variables = obj end;
            subflow_depth = 0;
          })
          p.published_scenarios
          (record rows { next_automation_sequence = rows.next_automation_sequence + 1 })
      else returns tt rows

  unfoldable pub trigger_event : String → Action (Unit {0})
  unfolding trigger_each
  trigger_event event = trigger_for event (p.event_payload event)

  abbrev pub resume_http_found :
      String → String → Value → Option String → Option ScenarioExecution → Action (Unit {0})
  resume_http_found execution node mapped start none = pure tt
  resume_http_found execution node mapped start (some e) =
      if is_ended e.status then pure tt else (do
        write_execution execution
            (λ x. record x { variables = obj (deep_merge (object e.variables) (object mapped)) })
        λ rows. returns tt (record rows {
          node_runs =
              update_rows (of_run execution node)
                (λ (r : NodeRun). record r {
                  completed_at = some now;
                  status = NodeStatus.succeeded;
                })
                rows.node_runs;
        })
        resume_from execution start none)

  unfoldable pub resume_external_http : String → String → Value → Option String → Action (Unit {0})
  unfolding deep_merge
  resume_external_http execution node mapped start rows =
      resume_http_found execution node mapped start (find_execution execution rows) rows

  -- Both queries come before the first transaction.
  unfoldable pub scan_continuations : ℕ → Rows → Bool × Rows
  unfolding each resume_delayed_action timeout_wait due_actions due_waits
  scan_continuations take rows =
      then_each timeout_wait (due_waits now take rows)
        (each resume_delayed_action (due_actions now take rows) rows)
