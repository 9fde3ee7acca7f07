-- ===== src/Runtime/Rows.antt =====
-- The rows that apps/worker/src/automation/automation-runtime.service.ts reads and writes for one
-- conversation and its contact, and the actions of a transaction on them.
use manychat.Prelude.{
  ℕ, String, Bool, true, false, ◌&&◌, List, [], ◌∷◌, Option, none, some, any, find, ◌==◌,
  if◌then◌else◌,
}
use manychat.Value.{Value, Fields, field}
use manychat.HttpOutbox.Row.{ExecutionStatus, NodeStatus}

-- `triggerKey`: the event's id, or `subflow:` with the execution and the node that started it.
pub data TriggerKey : Type 0 where
  by_event : (event : String) → TriggerKey
  by_subflow : (execution node : String) → TriggerKey

abbrev pub same_trigger : TriggerKey → TriggerKey → Bool
same_trigger (by_event a) (by_event b) = a == b
same_trigger (by_subflow a n) (by_subflow b m) = a == b && n == m
same_trigger _ _ = false

pub record ScenarioExecution : Type 0 where
  pub id : String
  pub scenario_id : String
  pub scenario_version_id : String
  pub trigger_event_id : String
  pub trigger_key : TriggerKey
  pub parent_execution_id : Option String
  pub resume_node_id : Option String
  pub status : ExecutionStatus
  pub current_node_id : Option String
  pub variables : Value
  pub completed_at : Option ℕ

pub data DelayedActionStatus : Type 0 where
  pending processing completed failed cancelled : DelayedActionStatus

pub record DelayedAction : Type 0 where
  pub id : String
  pub scenario_execution_id : String
  pub node_id : String
  pub resume_node_id : Option String
  pub status : DelayedActionStatus
  pub attempts : ℕ
  pub next_attempt_at : ℕ
  pub completed_at : Option ℕ

pub data WaitStateStatus : Type 0 where
  active resolved timed_out cancelled : WaitStateStatus

pub record WaitState : Type 0 where
  pub id : String
  pub scenario_execution_id : String
  pub node_id : String
  pub criteria : Value
  pub success_node_id : Option String
  pub timeout_node_id : Option String
  pub status : WaitStateStatus
  pub expires_at : ℕ
  pub resolved_at : Option ℕ
  pub resolved_by_event_id : Option String

-- An HTTP operation with its outbox record.
pub record HttpOperation : Type 0 where
  pub scenario_execution_id : String
  pub node_id : String
  pub success_node_id : Option String
  pub failure_node_id : Option String
  pub max_attempts : ℕ

pub data CrmOperationType : Type 0 where
  create_or_update_lead forward_inbound_message : CrmOperationType

pub record CrmOperation : Type 0 where
  pub scenario_execution_id : String
  pub node_id : String
  pub normalized_event_id : String
  pub type : CrmOperationType

-- A message that a node has queued, with its outbox record.
pub record QueuedMessage : Type 0 where
  pub scenario_execution_id : String
  pub node_id : String

pub record NodeRun : Type 0 where
  pub scenario_execution_id : String
  pub node_id : String
  pub status : NodeStatus
  pub completed_at : Option ℕ

pub record Contact : Type 0 where
  pub automation_enabled : Bool
  pub custom_fields : Value
  pub variables : Fields
  pub tags : List String
  -- `contactCustomFieldValue`, by the definition's id
  pub field_values : List (String × Value)

-- `contactVariables`; `variables` holds the members but for the custom fields.
abbrev pub contact_variables_of : Contact → Fields
contact_variables_of c = field "customFields" c.custom_fields c.variables

pub record Rows : Type 0 where
  pub executions : List ScenarioExecution
  pub delayed_actions : List DelayedAction
  pub wait_states : List WaitState
  pub http_operations : List HttpOperation
  pub crm_operations : List CrmOperation
  pub messages : List QueuedMessage
  pub node_runs : List NodeRun
  pub contact : Contact
  pub next_automation_sequence : ℕ

-- What a call inside a transaction comes to. An error rolls everything back. `exhausted` is the end of
-- the fuel of the model, and no outcome of the code.
pub data Completion (A : Type 0) : Type 0 where
  exhausted : Completion A
  throws : String → Completion A
  returns : A → Rows → Completion A

abbrev pub Action : Type 0 → Type 0
Action A = Rows → Completion A

abbrev pub pure : {A : Type 0} → A → Action A
pure a rows = returns a rows

abbrev pub throw : {A : Type 0} → String → Action A
throw e rows = throws e

abbrev pub continue : {A B : Type 0} → Completion A → (A → Action B) → Completion B
continue exhausted f = exhausted
continue (throws e) f = throws e
continue (returns a rows) f = f a rows

infixl 5 ◌>>=◌ ◌>>◌
abbrev pub ◌>>=◌ : {A B : Type 0} → Action A → (A → Action B) → Action B
◌>>=◌ m f rows = continue (m rows) f

abbrev pub ◌>>◌ : {B : Type 0} → Action (Unit {0}) → Action B → Action B
m >> k = m >>= λ _. k

abbrev pub check : Bool → String → Action (Unit {0})
check true e = pure tt
check false e = throw e

-- `updateMany`
unfoldable pub update_rows : {A : Type 0} → (A → Bool) → (A → A) → List A → List A
update_rows test change [] = []
update_rows test change (row ∷ rows) =
    (if test row then change row else row) ∷ update_rows test change rows

abbrev pub is_execution : String → ScenarioExecution → Bool
is_execution id e = e.id == id

abbrev pub find_execution : String → Rows → Option ScenarioExecution
find_execution id rows = find (is_execution id) rows.executions

abbrev pub write_execution : String → (ScenarioExecution → ScenarioExecution) → Action (Unit {0})
write_execution id change rows =
    returns tt (record rows { executions = update_rows (is_execution id) change rows.executions })

-- `{ currentNodeId, status: 'RUNNING' }`, and the same with `WAITING`
abbrev pub running_at : Option String → ScenarioExecution → ScenarioExecution
running_at node e = record e { current_node_id = node; status = ExecutionStatus.running }

abbrev pub waiting_at : String → ScenarioExecution → ScenarioExecution
waiting_at node e = record e { current_node_id = some node; status = ExecutionStatus.waiting }

abbrev pub completed_now : ℕ → ScenarioExecution → ScenarioExecution
completed_now now e = record e {
  completed_at = some now;
  current_node_id = none;
  status = ExecutionStatus.completed;
}

-- `['COMPLETED', 'FAILED', 'CANCELLED'].includes(status)`
abbrev pub is_ended : ExecutionStatus → Bool
is_ended ExecutionStatus.completed = true
is_ended ExecutionStatus.failed = true
is_ended ExecutionStatus.cancelled = true
is_ended _ = false

abbrev pub is_pending_action : DelayedActionStatus → Bool
is_pending_action pending = true
is_pending_action _ = false

abbrev pub is_active_wait : WaitStateStatus → Bool
is_active_wait active = true
is_active_wait _ = false

-- The unique keys: an execution has one row of a kind for a node.
abbrev pub of_delay : String → String → DelayedAction → Bool
of_delay execution node a = a.scenario_execution_id == execution && a.node_id == node

abbrev pub of_wait : String → String → WaitState → Bool
of_wait execution node w = w.scenario_execution_id == execution && w.node_id == node

abbrev pub of_request : String → String → HttpOperation → Bool
of_request execution node o = o.scenario_execution_id == execution && o.node_id == node

abbrev pub of_crm : String → String → CrmOperation → Bool
of_crm execution node o = o.scenario_execution_id == execution && o.node_id == node

abbrev pub of_message : String → String → QueuedMessage → Bool
of_message execution node m = m.scenario_execution_id == execution && m.node_id == node

abbrev pub of_run : String → String → NodeRun → Bool
of_run execution node r = r.scenario_execution_id == execution && r.node_id == node

-- `upsert` with an empty `update`, and `create` where no row has the key
unfoldable pub create_once : {A : Type 0} → (A → Bool) → A → List A → List A
create_once same_key row rows = if any same_key rows then rows else row ∷ rows
