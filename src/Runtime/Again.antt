-- ===== src/Runtime/Again.antt =====
-- A node that suspends the execution, entered again (applyNode of
-- apps/worker/src/automation/automation-runtime.service.ts): its `upsert` finds the row of the first time,
-- which has been used, and changes nothing, and the execution waits.
use manychat.Prelude.{
  ℕ, suc, String, Bool, true, false, not, ◌&&◌, List, [], ◌∷◌, Option, some, any, all, find,
  is_some, ◌==◌, ◌≡◌, ◌∙◌, refl, inl, inr, arith, Bool-cases, eq_of_some-eq-some,
}
use manychat.Value.{obj, end, coalesce, member, is_positive_integer}
use manychat.HttpOutbox.Row.{is_waiting_execution}
use manychat.Automation.Graph.{delay, wait_for_reply, external_http_request, Node, Graph}
use manychat.Automation.HttpConfig.{HttpConfig}
use manychat.Automation.Reply.{preprocess}
use manychat.Runtime.Rows.{
  ScenarioExecution, DelayedAction, WaitState, Rows, Completion, exhausted, throws, returns, Action,
  update_rows, is_execution, running_at, waiting_at, is_pending_action, is_active_wait, of_delay,
  of_wait, of_request, create_once,
}
use manychat.Runtime.Project.{RuntimeContext, Project}
use manychat.Runtime.Suspend.{apply_delay, apply_wait, queue_external_http_operation}
use manychat.Runtime.Node.{apply_node}
use manychat.Runtime.Run.{run_node, run_loop}
use manychat.Runtime.Service.{is_action, is_wait, resume_delayed_action, timeout_wait}

abbrev pub quiet_action : String → DelayedAction → Bool
quiet_action id a = not (a.scenario_execution_id == id && is_pending_action a.status)

abbrev pub quiet_wait : String → WaitState → Bool
quiet_wait id w = not (w.scenario_execution_id == id && is_active_wait w.status)

-- No delayed action of the execution is pending and no wait of it is active.
abbrev pub is_quiet : String → Rows → Bool
is_quiet id rows =
    all (quiet_action id) rows.delayed_actions && all (quiet_wait id) rows.wait_states

abbrev pub waits : String → List ScenarioExecution → Bool
waits id executions =
    any (λ (e : ScenarioExecution). is_execution id e && is_waiting_execution e.status) executions

abbrev pub is_asleep : String → Rows → Bool
is_asleep id rows = waits id rows.executions && is_quiet id rows

-- The call succeeds, and the execution then waits for nothing.
abbrev pub falls_asleep : {A : Type 0} → String → Completion A → Bool
falls_asleep id exhausted = false
falls_asleep id (throws e) = false
falls_asleep id (returns a rows) = is_asleep id rows

abbrev pub knows : String → Rows → Bool
knows id rows = any (is_execution id) rows.executions

create_once-same :
    {A : Type 0} (same_key : A → Bool) (row : A) (rows : List A)
    → any same_key rows ≡ true
    → create_once same_key row rows ≡ rows
unfolding create_once
create_once-same same_key row rows there = rw there refl

pub update-waits :
    (id node : String) (rows : List ScenarioExecution)
    → any (is_execution id) rows ≡ true
    → waits id (update_rows (is_execution id) (waiting_at node) rows) ≡ true
unfolding update_rows
update-waits id node [] h = cc
update-waits id node (e ∷ rows) h = ground (arith, update-waits id node rows)

pub update-knows :
    (id : String) (place : Option String) (rows : List ScenarioExecution)
    → any (is_execution id) (update_rows (is_execution id) (running_at place) rows)
      ≡ any (is_execution id) rows
unfolding update_rows
update-knows id place [] = refl
update-knows id place (e ∷ rows) = ground (arith, update-knows id place rows)

-- The node suspends the execution, and has done so before.
pub data Revisited (p : Project) (id : String) (node : Node) (rows : Rows) : Type 0 where
  delay_again :
      node.type ≡ delay
      → is_positive_integer (member "delaySeconds" node.config) ≡ true
      → any (of_delay id node.id) rows.delayed_actions ≡ true
      → Revisited p id node rows
  wait_again :
      node.type ≡ wait_for_reply
      → is_positive_integer (member "timeoutSeconds" node.config) ≡ true
      → is_some (
          p.schemas.criteria_contract
            (preprocess (coalesce (member "criteria" node.config) (obj end))))
        ≡ true
      → any (of_wait id node.id) rows.wait_states ≡ true
      → Revisited p id node rows
  request_again :
      (config : HttpConfig)
      → node.type ≡ external_http_request
      → p.schemas.external_http node.config ≡ some config
      → any (of_request id node.id) rows.http_operations ≡ true
      → Revisited p id node rows

module _ (p : Project) (now : ℕ)
    (call : Graph → String → RuntimeContext → Option String → Action (Unit {0})) where
  -- An execution of which nothing is pending comes to such a node again. The run succeeds, the
  -- execution is left WAITING, and still no delayed action of it is pending and no wait of it active.
  pub Revisited-is_asleep :
      (left : ℕ) (graph : Graph) (id : String) (node : Node) (context : RuntimeContext)
      (rows : Rows)
      → Revisited p id node rows
      → knows id rows ≡ true
      → is_quiet id rows ≡ true
      → falls_asleep id (run_loop p now call (suc left) graph id (some node) context rows) ≡ true
  unfolding run_loop run_node apply_node apply_delay apply_wait queue_external_http_operation
  Revisited-is_asleep left graph id node context rows (delay_again type seconds there) known quiet =
      let again = update-knows id (some node.id) rows.executions ∙ known in
      rw (type, seconds, create_once-same (of_delay id node.id) _ rows.delayed_actions there)
        (rw
          (update-waits id node.id
            (update_rows (is_execution id) (running_at (some node.id)) rows.executions) again)
          quiet)
  Revisited-is_asleep left graph id node context rows (wait_again type seconds contract there) known
        quiet =
      let again = update-knows id (some node.id) rows.executions ∙ known in
      rw (type, seconds, contract, create_once-same (of_wait id node.id) _ rows.wait_states there)
        (rw
          (update-waits id node.id
            (update_rows (is_execution id) (running_at (some node.id)) rows.executions) again)
          quiet)
  Revisited-is_asleep left graph id node context rows (request_again config type parsed there) known
        quiet =
      let again = update-knows id (some node.id) rows.executions ∙ known in
      rw (type, parsed)
        (rw
          (update-waits id node.id
            (update_rows (is_execution id) (running_at (some node.id)) rows.executions) again)
          quiet)

all-find :
    {A : Type 0} (test kept : A → Bool) (rows : List A) (a : A)
    → all kept rows ≡ true
    → find test rows ≡ some a
    → kept a ≡ true
all-find test kept [] a h e = cc
all-find test kept (row ∷ rows) a h e = elim (Bool-cases (test row)) [
  | inl hit ↦
      let same : row ≡ a = eq_of_some-eq-some (rw hit at e) in rw (← same) (ground (arith, h))
  | inr miss ↦ all-find test kept rows a (ground (arith, h)) (rw miss at e)
]

module _ (p : Project) (fuel now : ℕ) where
  -- Of an execution of which nothing is pending, a delayed action is not resumed and a wait is not timed
  -- out: both leave every row as it was.
  pub quiet-unmoved :
      (id action wait : String) (a : DelayedAction) (w : WaitState) (lower : String → String)
      (rows : Rows)
      → is_quiet id rows ≡ true
      → find (is_action action) rows.delayed_actions ≡ some a
      → a.scenario_execution_id == id ≡ true
      → find (is_wait wait) rows.wait_states ≡ some w
      → w.scenario_execution_id == id ≡ true
      → (resume_delayed_action p lower fuel now action rows ≡ returns tt rows)
        × (timeout_wait p lower fuel now wait rows ≡ returns tt rows)
  unfolding resume_delayed_action timeout_wait
  quiet-unmoved id action wait a w lower rows quiet found own found_wait own_wait =
      let used : quiet_action id a ≡ true =
        all-find (is_action action) (quiet_action id) rows.delayed_actions a (ground (arith, quiet))
          found in
      let over : quiet_wait id w ≡ true =
        all-find (is_wait wait) (quiet_wait id) rows.wait_states w (ground (arith, quiet))
          found_wait in
      (rw found (ground (arith, used, own)), rw found_wait (ground (arith, over, own_wait)))
