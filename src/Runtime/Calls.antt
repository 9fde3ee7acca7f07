-- ===== src/Runtime/Calls.antt =====
-- The public methods of apps/worker/src/automation/automation-runtime.service.ts, each by itself: what it
-- leaves of the delayed actions and waits.
use manychat.Prelude.{
  ℕ, String, ◌&&◌, List, [], ◌∷◌, Option, none, some, find, leb, if◌then◌else◌, inl, inr,
  Bool-cases, Option-cases,
}
use manychat.Value.{Value}
use manychat.Automation.Graph.{Graph}
use manychat.Automation.Reply.{matches_wait_for_reply_criteria}
use manychat.Runtime.Rows.{
  ScenarioExecution, DelayedAction, WaitState, Completion, exhausted, throws, returns, pure,
  find_execution, is_ended, is_pending_action, is_active_wait, create_once,
}
use manychat.Runtime.Project.{RuntimeContext, Project}
use manychat.Runtime.Node.{upsert_execution, of_trigger, or_new}
use manychat.Runtime.Run.{execute_graph, run_graph}
use manychat.Runtime.Service.{
  is_action, is_wait, write_actions, is_processing_action, complete_action, or_failed, resume_from,
  resume_action, resume_pending, resume_delayed_action, end_wait, end_expired, timeout_wait,
  has_active, resolve, resolve_one, resolve_each, resolve_for, resolve_waits, new_execution,
  trigger_scenario, trigger_each, trigger_for, trigger_event, mode_or, resume_http_found,
  resume_external_http,
}
use manychat.Runtime.Lifecycle.{Property, Leaves, continue-Leaves, KeptByNodes, Lifecycle}
use manychat.Runtime.Preserved.{Preserves}
use manychat.Runtime.Kept.{resume_execution-Preserves, run_graph-Preserves, execute_graph-Preserves}

module _ (p : Project) (lower : String → String) (fuel now : ℕ) where
  pub resume_from-Preserves :
      (K : Property)
      → KeptByNodes p K
      → (id : String) (start event : Option String)
      → Preserves K (resume_from p lower fuel now id start event)
  resume_from-Preserves K kept =
      resume_execution-Preserves K p now kept (run_graph p now fuel)
        (run_graph-Preserves K p now kept fuel (execute_graph-Preserves K p now kept fuel))

pub or_failed-Leaves :
    (K : Property) (c : Completion (Unit {0})) → Leaves K c → Leaves K (or_failed c)
or_failed-Leaves K exhausted h = tt
or_failed-Leaves K (throws e) h = tt
or_failed-Leaves K (returns a rows) h = h

module _ (p : Project) (J : Property) (H : String → Property) (life : Lifecycle p J H)
    (lower : String → String) (fuel now : ℕ) where
  -- The row is held by the transaction from its first write to its last.
  resume_action-Preserves : (a : DelayedAction) → Preserves J (resume_action p lower fuel now a)
  resume_action-Preserves a rows u =
      let resumed =
        resume_from-Preserves p lower fuel now (H a.id) (life.by_nodes_held a.id)
          a.scenario_execution_id a.resume_node_id none _
          (life.taken a.id rows.delayed_actions rows.wait_states u) in
      or_failed-Leaves J _ (
        continue-Leaves (H a.id) J _
          (λ x.
            write_actions (λ b. is_action a.id b && is_processing_action b.status)
              (complete_action now))
          resumed (λ x after v. life.done a.id now after.delayed_actions after.wait_states v))

  pub resume_delayed_action-Preserves :
      (id : String) → Preserves J (resume_delayed_action p lower fuel now id)
  unfolding resume_delayed_action
  resume_delayed_action-Preserves id rows u = pending (find (is_action id) rows.delayed_actions)
    where
      pending : (o : Option DelayedAction) → Leaves J (resume_pending p lower fuel now o rows)
      pending none = u
      pending (some a) = elim (Bool-cases (is_pending_action a.status)) [
        | inl e ↦ rw e (resume_action-Preserves a rows u)
        | inr e ↦ rw e u
      ]

  end_wait-Preserves : (w : WaitState) → Preserves J (end_wait p lower fuel now w)
  end_wait-Preserves w rows u =
      resume_from-Preserves p lower fuel now J life.by_nodes w.scenario_execution_id
        w.timeout_node_id none _ (life.times_out w.id now rows.delayed_actions rows.wait_states u)

  pub timeout_wait-Preserves : (id : String) → Preserves J (timeout_wait p lower fuel now id)
  unfolding timeout_wait
  timeout_wait-Preserves id rows u = expired (find (is_wait id) rows.wait_states)
    where
      expired : (o : Option WaitState) → Leaves J (end_expired p lower fuel now o rows)
      expired none = u
      expired (some w) = elim (Bool-cases (is_active_wait w.status && leb w.expires_at now)) [
        | inl e ↦ rw e (end_wait-Preserves w rows u)
        | inr e ↦ rw e u
      ]

  resolve-Preserves :
      (event : String) (w : WaitState) → Preserves J (resolve p lower fuel now event w)
  resolve-Preserves event w rows u =
      resume_from-Preserves p lower fuel now J life.by_nodes w.scenario_execution_id
        w.success_node_id (some event) _
        (life.resolves w.id event now rows.delayed_actions rows.wait_states u)

  resolve_one-Preserves :
      (event : String) (payload : Value) (w : WaitState)
      → Preserves J (resolve_one p lower fuel now event payload w)
  resolve_one-Preserves event payload w rows u =
      elim (Bool-cases (
        matches_wait_for_reply_criteria p.schemas.criteria_contract lower w.criteria payload
        && has_active p lower fuel now w.id rows.wait_states)) [
          | inl e ↦ rw e (resolve-Preserves event w rows u)
          | inr e ↦ rw e u
        ]

  resolve_each-Preserves :
      (event : String) (payload : Value) (waits : List WaitState)
      → Preserves J (resolve_each p lower fuel now event payload waits)
  unfolding resolve_each
  resolve_each-Preserves event payload [] rows u = u
  resolve_each-Preserves event payload (w ∷ waits) rows u =
      continue-Leaves J J _ (λ x. resolve_each p lower fuel now event payload waits)
        (resolve_one-Preserves event payload w rows u)
        (λ x after v. resolve_each-Preserves event payload waits after v)

  pub resolve_waits-Preserves :
      (event : String) → Preserves J (resolve_waits p lower fuel now event)
  unfolding resolve_waits
  resolve_waits-Preserves event rows u = elim (Option-cases (p.event_payload event)) [
    | inl e ↦ rw (e, resolve_for) u
    | inr (payload, e) ↦ rw (e, resolve_for) (resolve_each-Preserves event payload _ rows u)
  ]

  begun-Preserves :
      (graph : Graph) (context : RuntimeContext) (e : ScenarioExecution)
      → Preserves J (
          if is_ended e.status
          then pure context
          else execute_graph p now fuel graph e.id context none)
  begun-Preserves graph context e rows u = elim (Bool-cases (is_ended e.status)) [
    | inl over ↦ rw over u
    | inr live ↦
        rw live (execute_graph-Preserves J p now life.by_nodes fuel graph e.id context none rows u)
  ]

  trigger_scenario-Preserves :
      (context : RuntimeContext) (scenario version : String) (o : Option (Option Graph))
      → Preserves J (trigger_scenario p lower fuel now context scenario version o)
  unfolding upsert_execution
  trigger_scenario-Preserves context scenario version none rows u = u
  trigger_scenario-Preserves context scenario version (some none) rows u = u
  trigger_scenario-Preserves context scenario version (some (some graph)) rows u =
      let e = new_execution p lower fuel now context.normalized_event_id scenario version in
      let same = of_trigger p now (run_graph p now fuel) e in
      begun-Preserves graph context
        (or_new p now (run_graph p now fuel) e (find same rows.executions))
        (record rows { executions = create_once same e rows.executions }) u

  trigger_each-Preserves :
      (context : RuntimeContext) (scenarios : List (String × String))
      → Preserves J (trigger_each p lower fuel now context scenarios)
  unfolding trigger_each
  trigger_each-Preserves context [] rows u = u
  trigger_each-Preserves context ((scenario, version) ∷ scenarios) rows u =
      continue-Leaves J J _ (λ after. trigger_each p lower fuel now after scenarios)
        (trigger_scenario-Preserves context scenario version (p.definition version) rows u)
        (λ context after v. trigger_each-Preserves context scenarios after v)

  pub trigger_event-Preserves :
      (event : String) → Preserves J (trigger_event p lower fuel now event)
  unfolding trigger_event
  trigger_event-Preserves event rows u = elim (Option-cases (p.event_payload event)) [
    | inl e ↦ rw (e, trigger_for) u
    | inr (payload, e) ↦
        rw (e, trigger_for)
          (elim (Bool-cases
            (mode_or p lower fuel now p.automation_mode_override rows.contact.automation_enabled)) [
              | inl on ↦ rw on (trigger_each-Preserves _ p.published_scenarios _ u)
              | inr off ↦ rw off u
            ])
  ]

  pub resume_http-Preserves :
      (execution node : String) (mapped : Value) (start : Option String)
      → Preserves J (resume_external_http p lower fuel now execution node mapped start)
  unfolding resume_external_http
  resume_http-Preserves execution node mapped start rows u = resumed (find_execution execution rows)
    where
      resumed :
          (o : Option ScenarioExecution)
          → Leaves J (resume_http_found p lower fuel now execution node mapped start o rows)
      resumed none = u
      resumed (some e) = elim (Bool-cases (is_ended e.status)) [
        | inl over ↦ rw over u
        | inr live ↦
            rw live
              (resume_from-Preserves p lower fuel now J life.by_nodes execution start none _ u)
      ]
