-- ===== src/Runtime/Restart.antt =====
-- A DELAY that nothing follows, when its time has come
-- (apps/worker/src/automation/automation-runtime.service.ts): its action names no node to go on at, and
-- `executeGraph` without a start begins at the trigger.
use manychat.Prelude.{
  ℕ, suc, String, Bool, true, false, ◌&&◌, ◌||◌, List, [], ◌∷◌, Option, none, some, any, all, find,
  eq_refl, ◌≡◌, ◌∙◌, refl, inl, inr, arith, Bool-cases, eq_of_some-eq-some,
}
use manychat.Value.{Value, member, is_positive_integer}
use manychat.Automation.Graph.{incoming_message, delay, Node, Graph}
use manychat.Automation.Simulate.{default_edge}
use manychat.Automation.Validate.{is_trigger}
use manychat.Runtime.Rows.{
  ScenarioExecution, DelayedAction, Rows, Completion, exhausted, throws, returns, Action, pure,
  continue, update_rows, find_execution, is_execution, is_ended, is_pending_action, of_delay,
}
use manychat.Runtime.Project.{RuntimeContext, Project}
use manychat.Runtime.Node.{apply_node}
use manychat.Runtime.Run.{
  starting_node, node_after, edges_from, run_node, run_loop, resume_found, resume_execution,
  execute_graph, run_graph,
}
use manychat.Runtime.Service.{
  is_action, take_action, complete_action, is_processing_action, or_failed, write_actions,
  resume_delayed_action,
}
use manychat.Runtime.Again.{
  quiet_action, quiet_wait, is_quiet, falls_asleep, knows, update-knows, delay_again,
  Revisited-is_asleep,
}

abbrev is_taken : String → DelayedAction → Bool
is_taken id a = is_action id a && is_pending_action a.status

abbrev is_done : String → DelayedAction → Bool
is_done id a = is_action id a && is_processing_action a.status

taken-there :
    (id execution node : String) (rows : List DelayedAction)
    → any (of_delay execution node) rows ≡ true
    → any (of_delay execution node) (update_rows (is_taken id) take_action rows) ≡ true
unfolding update_rows
taken-there id execution node [] h = h
taken-there id execution node (b ∷ rows) h = ground (arith, taken-there id execution node rows)

-- The action is the only one of its execution that is pending.
abbrev pub only_pending : String → String → DelayedAction → Bool
only_pending id execution b = is_action id b || quiet_action execution b

taken-quiet :
    (id execution : String) (rows : List DelayedAction)
    → all (only_pending id execution) rows ≡ true
    → all (quiet_action execution) (update_rows (is_taken id) take_action rows) ≡ true
unfolding update_rows
taken-quiet id execution [] h = refl
taken-quiet id execution (b ∷ rows) h = ground (arith, taken-quiet id execution rows)

done-quiet :
    (id execution : String) (now : ℕ) (rows : List DelayedAction)
    → all (quiet_action execution) rows ≡ true
    → all (quiet_action execution) (update_rows (is_done id) (complete_action now) rows) ≡ true
unfolding update_rows
done-quiet id execution now [] h = refl
done-quiet id execution now (b ∷ rows) h = ground (arith, done-quiet id execution now rows)

then-done :
    (id execution : String) (now : ℕ) (m : Completion (Unit {0}))
    → falls_asleep execution m ≡ true
    → falls_asleep execution
        (or_failed (continue m (λ u. write_actions (is_done id) (complete_action now))))
      ≡ true
then-done id execution now exhausted h = h
then-done id execution now (throws e) h = cc
then-done id execution now (returns u rows) h =
    ground (arith, h, done-quiet id execution now rows.delayed_actions)

find-any :
    {A : Type 0} (test other : A → Bool) (rows : List A) (a : A)
    → find test rows ≡ some a
    → other a ≡ true
    → any other rows ≡ true
find-any test other [] a h k = cc
find-any test other (b ∷ rows) a h k = elim (Bool-cases (test b)) [
  | inl hit ↦ let same : b ≡ a = eq_of_some-eq-some (rw hit at h) in rw same (rw k refl)
  | inr miss ↦ ground (arith, find-any test other rows a (rw miss at h) k)
]

-- The execution runs a scenario whose trigger is followed by the DELAY of the action.
pub record EndsInDelay (p : Project) (a : DelayedAction) (rows : Rows) : Type 0 where
  pub found : find (is_action a.id) rows.delayed_actions ≡ some a
  pub pending : is_pending_action a.status ≡ true
  pub execution : ScenarioExecution
  pub known : find_execution a.scenario_execution_id rows ≡ some execution
  pub only : all (only_pending a.id execution.id) rows.delayed_actions ≡ true
  pub no_wait : all (quiet_wait execution.id) rows.wait_states ≡ true
  pub alive : is_ended execution.status ≡ false
  pub payload : Value
  pub event : p.event_payload execution.trigger_event_id ≡ some payload
  pub graph : Graph
  pub definition : p.definition execution.scenario_version_id ≡ some (some graph)
  pub trigger : Node
  pub starts : find is_trigger graph.nodes ≡ some trigger
  pub trigger_type : trigger.type ≡ incoming_message
  pub last : Node
  pub follows : node_after graph (default_edge (edges_from graph trigger)) ≡ some last
  pub last_type : last.type ≡ delay
  pub seconds : is_positive_integer (member "delaySeconds" last.config) ≡ true
  pub of_last : of_delay execution.id last.id a ≡ true
  pub goes_nowhere : a.resume_node_id ≡ none

module _ (p : Project) (now : ℕ)
    (call : Graph → String → RuntimeContext → Option String → Action (Unit {0})) where
  trigger-is_asleep :
      (left : ℕ) (graph : Graph) (id : String) (trigger last : Node) (context : RuntimeContext)
      (rows : Rows)
      → trigger.type ≡ incoming_message
      → node_after graph (default_edge (edges_from graph trigger)) ≡ some last
      → last.type ≡ delay
      → is_positive_integer (member "delaySeconds" last.config) ≡ true
      → any (of_delay id last.id) rows.delayed_actions ≡ true
      → knows id rows ≡ true
      → is_quiet id rows ≡ true
      → falls_asleep id (run_loop p now call (suc (suc left)) graph id (some trigger) context rows)
        ≡ true
  unfolding run_loop run_node apply_node
  trigger-is_asleep left graph id trigger last context rows type follows last_type seconds there
        known quiet =
      rw (type, follows)
        (Revisited-is_asleep p now call left graph id last context _
          (delay_again last_type seconds there)
          (update-knows id (some trigger.id) rows.executions ∙ known) quiet)

dropping-asleep :
    {A : Type 0} (execution : String) (m : Completion A)
    → falls_asleep execution m ≡ true
    → falls_asleep execution (continue m (λ _. pure tt)) ≡ true
dropping-asleep execution exhausted h = h
dropping-asleep execution (throws e) h = cc
dropping-asleep execution (returns a rows) h = h

module _ (p : Project) (lower : String → String) (fuel now : ℕ) where
  -- A scenario ends in a DELAY right after its trigger. When the delay is over, the scenario begins
  -- again, and the execution does not complete: it is left WAITING, with no delayed action pending and no
  -- wait active.
  pub last_delay-is_asleep :
      (a : DelayedAction) (rows : Rows) (h : EndsInDelay p a rows)
      → falls_asleep h.execution.id (resume_delayed_action p lower (suc fuel) now a.id rows) ≡ true
  unfolding resume_delayed_action resume_execution execute_graph starting_node
  last_delay-is_asleep a rows h =
      let id = h.execution.id in
      let there : any (of_delay id h.last.id) rows.delayed_actions ≡ true =
        find-any (is_action a.id) (of_delay id h.last.id) rows.delayed_actions a h.found
          h.of_last in
      let here : knows id rows ≡ true =
        find-any (is_execution a.scenario_execution_id) (is_execution id) rows.executions
          h.execution h.known (eq_refl id) in
      let quiet = taken-quiet a.id id rows.delayed_actions h.only in
      rw
        (
          h.found, h.pending, h.known, resume_found, h.definition, h.alive, h.event, h.goes_nowhere,
          h.starts,
        )
        (then-done a.id id now _ (
          dropping-asleep id _ (
            trigger-is_asleep p now (run_graph p now fuel) 98 h.graph id h.trigger h.last _ _
              h.trigger_type h.follows h.last_type h.seconds
              (taken-there a.id id h.last.id rows.delayed_actions there)
              (update-knows id none rows.executions ∙ here) (rw quiet h.no_wait))))
