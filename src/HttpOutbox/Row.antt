-- ===== src/HttpOutbox/Row.antt =====
-- A row of `outbox_records` with its operation and execution, and the statements that
-- apps/worker/src/external-http/external-http-outbox.service.ts runs on them.
use manychat.Prelude.{
  ℕ, ◌+◌, ◌*◌, ◌^◌, String, Bool, true, false, ◌&&◌, ◌||◌, List, Option, none, some, leb, ltb, ◌==◌,
  if◌then◌else◌,
}
use manychat.Value.{Value}

pub data OutboxRecordStatus : Type 0 where
  pending processing retry succeeded failed unknown : OutboxRecordStatus

pub data OutboxKind : Type 0 where
  telegram whatsapp crm http : OutboxKind

abbrev pub is_http : OutboxKind → Bool
is_http http = true
is_http _ = false

abbrev pub is_processing : OutboxRecordStatus → Bool
is_processing processing = true
is_processing _ = false

-- `status: { in: ['PENDING', 'RETRY'] }`
abbrev pub is_waiting : OutboxRecordStatus → Bool
is_waiting pending = true
is_waiting retry = true
is_waiting _ = false

pub record OutboxRecord : Type 0 where
  pub project_id : String
  pub kind : OutboxKind
  pub status : OutboxRecordStatus
  pub attempts : ℕ
  pub max_attempts : ℕ
  pub next_attempt_at : Option ℕ
  pub locked_at : Option ℕ
  pub locked_by : Option String
  pub last_error : Option String
  pub completed_at : Option ℕ

pub data RequestOutcome : Type 0 where
  success failure : RequestOutcome

-- What is kept of an answer, or of its absence: without the body and the variables.
pub data SafeOutput : Type 0 where
  answered :
      (content_type : Option String) (mapping_keys : List String) (outcome : RequestOutcome)
      (size_bytes status_code : ℕ)
      → SafeOutput
  failed_with unknown_with : (error_code : String) → SafeOutput

pub record Operation : Type 0 where
  pub project_id : String
  pub scenario_execution_id : String
  pub node_id : String
  pub success_node_id : Option String
  pub failure_node_id : Option String
  pub result_safe : Option SafeOutput

pub data ExecutionStatus : Type 0 where
  queued running waiting paused completed failed cancelled : ExecutionStatus

abbrev pub is_waiting_execution : ExecutionStatus → Bool
is_waiting_execution waiting = true
is_waiting_execution _ = false

pub data NodeStatus : Type 0 where
  pending processing succeeded failed skipped : NodeStatus

-- The execution of the scenario, and that of the node which made the request.
pub record Execution : Type 0 where
  pub status : ExecutionStatus
  pub error : Option String
  pub node_status : NodeStatus
  pub node_error : Option String
  pub node_completed_at : Option ℕ
  pub variables : Value

-- A call of `resumeExternalHttpInTransaction`.
pub record Resume : Type 0 where
  pub mapped_variables : Value
  pub node_id : String
  pub outcome : RequestOutcome
  pub safe_output : SafeOutput
  pub scenario_execution_id : String
  pub start_node_id : Option String

-- The rows of one request, and the calls of the runtime so far, the last one first.
pub record World : Type 0 where
  pub outbox : OutboxRecord
  pub operation : Operation
  pub execution : Execution
  pub resumes : List Resume

abbrev pub not_after : Option ℕ → ℕ → Bool
not_after none now = true
not_after (some t) now = leb t now

abbrev pub before : Option ℕ → ℕ → Bool
before none now = false
before (some t) now = ltb t now

-- The rows that `scanOnce` and the claim ask for: due, or with a lease that has expired.
unfoldable pub is_claimable : ℕ → ℕ → OutboxRecord → Bool
is_claimable now lease_expired_before o =
    is_http o.kind
    && ((is_waiting o.status && not_after o.next_attempt_at now)
        || (before o.locked_at lease_expired_before && is_processing o.status))

-- What the claim writes where it finds the row so.
abbrev pub claimed : ℕ → String → OutboxRecord → OutboxRecord
claimed now lease o = record o {
  attempts = o.attempts + 1;
  last_error = none;
  locked_at = some now;
  locked_by = some lease;
  status = processing;
}

abbrev pub locked_by_is : String → Option String → Bool
locked_by_is lease none = false
locked_by_is lease (some owner) = owner == lease

-- The row is still held, under the lease where one is given: what each later statement asks for.
unfoldable pub is_held : Option String → Operation → OutboxRecord → Bool
is_held none operation o = o.project_id == operation.project_id && is_processing o.status
is_held (some lease) operation o =
    locked_by_is lease o.locked_by && o.project_id == operation.project_id && is_processing o.status

abbrev pub finished : OutboxRecordStatus → Option String → ℕ → OutboxRecord → OutboxRecord
finished status error now o = record o {
  completed_at = some now;
  last_error = error;
  locked_at = none;
  locked_by = none;
  next_attempt_at = none;
  status = status;
}

abbrev pub min : ℕ → ℕ → ℕ
min a b = if leb a b then a else b

unfoldable pub retry_delay : ℕ → ℕ
retry_delay attempts = min 300000 (1000 * 2 ^ min attempts 8)

abbrev pub retried : String → ℕ → ℕ → OutboxRecord → OutboxRecord
retried code now attempts o = record o {
  last_error = some code;
  locked_at = none;
  locked_by = none;
  next_attempt_at = some (now + retry_delay attempts);
  status = retry;
}
