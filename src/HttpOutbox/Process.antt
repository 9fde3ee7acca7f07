-- ===== src/HttpOutbox/Process.antt =====
-- `process`, `finishPermanent`, `retry`, `markUnknown` and `withNodeStatus` of
-- apps/worker/src/external-http/external-http-outbox.service.ts. Each transaction is one step. The
-- call of the runtime and the sending of the request are arguments.
use manychat.Prelude.{
  ℕ, ◌-◌, String, Bool, true, false, not, ◌&&◌, ◌||◌, List, ◌∷◌, Option, none, some, ltb, nat_eq,
  if◌then◌else◌,
}
use manychat.Value.{Value, obj, end, field, member, with_member}
use manychat.Automation.Field.{record_of}
use manychat.Automation.HttpConfig.{Method, get}
use manychat.Http.Transport.{
  ExternalHttpOutcome, ExternalHttpError, retryable_failure, permanent_failure,
}
use manychat.HttpOutbox.Row.{
  OutboxRecord, OutboxRecordStatus, succeeded, Operation, Execution, ExecutionStatus, NodeStatus,
  Resume, World, RequestOutcome, success, failure, SafeOutput, answered, failed_with, unknown_with,
  is_processing, is_waiting_execution, before, is_claimable, claimed, is_held, finished, retried,
}

-- What `executeExternalHttpRequest` returns. `number n` is the value of the number n.
pub record Answer : Type 0 where
  pub content_type : Option String
  pub mapped_variables : Value
  pub mapping_keys : List String
  pub outcome : RequestOutcome
  pub size_bytes : ℕ
  pub status_code : ℕ

-- An error that is no `ExternalHttpError`, of the request or of what follows it, is the third case.
pub data Reply : Type 0 where
  answers : Answer → Reply
  fails : ExternalHttpError → Reply
  breaks : Reply

abbrev pub is_get : Method → Bool
is_get get = true
is_get _ = false

abbrev pub is_failure : RequestOutcome → Bool
is_failure failure = true
is_failure success = false

-- `[429, 500, 502, 503, 504].includes(statusCode)`
abbrev pub is_retry_status : ℕ → Bool
is_retry_status code =
    nat_eq code 429 || nat_eq code 500 || nat_eq code 502 || nat_eq code 503 || nat_eq code 504

-- The mapped variables with `nodes[nodeId].response.status` set.
unfoldable pub with_node_status : Value → String → Value → Value
with_node_status mapped node_id status =
    let nodes = record_of (member "nodes" (record_of mapped)) in
    let response = obj (field "status" status end) in
    let node = with_member "response" response (record_of (member node_id nodes)) in
    obj (with_member "nodes" (obj (with_member node_id (obj node) nodes)) (record_of mapped))

-- A claimed row whose lease has expired, of a request that may have had effects, or whose
-- configuration is not valid.
abbrev pub is_mutation : Option Method → Bool
is_mutation none = true
is_mutation (some method) = not (is_get method)

unfoldable pub is_expired_mutation : Option Method → ℕ → OutboxRecord → Bool
is_expired_mutation config lease_expired_before o =
    is_processing o.status && before o.locked_at lease_expired_before && is_mutation config

abbrev pub attempts_left : World → Bool
attempts_left refreshed = ltb refreshed.outbox.attempts refreshed.outbox.max_attempts

abbrev pub claim : ℕ → String → World → World
claim now lease w = record w { outbox = claimed now lease w.outbox }

module _ (runtime : Resume → Execution → Execution) (status_value : ℕ → Value) (clock : ℕ → ℕ) where
  -- `finished.count !== 1` ends the transaction with nothing written.
  unfoldable pub resume_with : Resume → SafeOutput → OutboxRecord → World → World
  resume_with call output outbox w = record w {
    outbox = outbox;
    operation = record w.operation { result_safe = some output };
    execution = runtime call w.execution;
    resumes = call ∷ w.resumes;
  }

  unfoldable pub finish_permanent : Operation → String → String → World → World
  unfolding resume_with is_held
  finish_permanent operation lease code w =
      if is_held (some lease) operation w.outbox
      then resume_with
          (record {
            mapped_variables = obj end;
            node_id = operation.node_id;
            outcome = failure;
            safe_output = failed_with code;
            scenario_execution_id = operation.scenario_execution_id;
            start_node_id = operation.failure_node_id;
          })
          (failed_with code) (finished OutboxRecordStatus.failed (some code) (clock 1) w.outbox) w
      else w

  unfoldable pub retry_later : World → String → String → World → World
  unfolding is_held
  retry_later refreshed lease code w =
      if is_held (some lease) refreshed.operation w.outbox
      then record w { outbox = retried code (clock 2) refreshed.outbox.attempts w.outbox }
      else w

  abbrev pub review : String
  review = "external_http_unknown_requires_review"

  abbrev pub pause : ℕ → Execution → Execution
  pause now e = record e {
    node_completed_at = some now;
    node_error = some review;
    node_status = NodeStatus.failed;
    error = if is_waiting_execution e.status then some review else e.error;
    status = if is_waiting_execution e.status then ExecutionStatus.paused else e.status;
  }

  unfoldable pub mark_unknown : Operation → String → Option String → World → World
  unfolding is_held
  mark_unknown operation code lease w =
      if is_held lease operation w.outbox
      then record w {
        outbox = finished OutboxRecordStatus.unknown (some code) (clock 3) w.outbox;
        operation = record w.operation { result_safe = some (unknown_with code) };
        execution = pause (clock 4) w.execution;
      }
      else w

  abbrev pub safe_answer : Answer → SafeOutput
  safe_answer a = answered a.content_type a.mapping_keys a.outcome a.size_bytes a.status_code

  abbrev pub start_node : RequestOutcome → Operation → Option String
  start_node success operation = operation.success_node_id
  start_node failure operation = operation.failure_node_id

  unfoldable pub succeed : World → String → Answer → World → World
  unfolding resume_with is_held
  succeed refreshed lease a w =
      if is_held (some lease) refreshed.operation w.outbox
      then resume_with
          (record {
            mapped_variables =
                with_node_status a.mapped_variables refreshed.operation.node_id
                  (status_value a.status_code);
            node_id = refreshed.operation.node_id;
            outcome = a.outcome;
            safe_output = safe_answer a;
            scenario_execution_id = refreshed.operation.scenario_execution_id;
            start_node_id = start_node a.outcome refreshed.operation;
          })
          (safe_answer a) (finished succeeded none (clock 0) w.outbox) w
      else w

  abbrev pub conclude_failure :
      ExternalHttpOutcome → String → Method → String → World → World → World
  conclude_failure retryable_failure code method lease refreshed w =
      if attempts_left refreshed
      then retry_later refreshed lease code w
      else finish_permanent refreshed.operation lease code w
  conclude_failure ExternalHttpOutcome.unknown code method lease refreshed w =
      if is_get method && attempts_left refreshed
      then retry_later refreshed lease code w
      else mark_unknown refreshed.operation code (some lease) w
  conclude_failure permanent_failure code method lease refreshed w =
      finish_permanent refreshed.operation lease code w

  -- The code of a status: `code_of n` is the text `external_http_status_n`.
  module _ (code_of : ℕ → String) where
    -- What follows the request, in the world that it finds then.
    unfoldable pub conclude : Reply → Method → String → World → World → World
    unfolding succeed retry_later finish_permanent mark_unknown
    conclude (answers a) method lease refreshed w =
        if is_failure a.outcome && is_retry_status a.status_code && attempts_left refreshed
        then retry_later refreshed lease (code_of a.status_code) w
        else succeed refreshed lease a w
    conclude (fails e) method lease refreshed w =
        conclude_failure e.outcome e.safe_code method lease refreshed w
    conclude breaks method lease refreshed w =
        conclude_failure ExternalHttpOutcome.unknown "external_http_unexpected_unknown" method lease
          refreshed w

    abbrev pub run : Option Method → (World → Reply) → String → World → World
    run none request lease refreshed =
        finish_permanent refreshed.operation lease "external_http_config_invalid" refreshed
    run (some method) request lease refreshed =
        conclude (request refreshed) method lease refreshed refreshed

    -- `process` where the first `load` saw `read`, and other workers have made `w` of it by the time
    -- that the statement after it runs.
    unfoldable pub process_from :
        Option Method → (World → Reply) → ℕ → String → World → World → World
    unfolding conclude is_claimable is_expired_mutation
    process_from config request now lease read w =
        if is_expired_mutation config (now - 60000) read.outbox
        then mark_unknown read.operation "external_http_expired_mutation_unknown" none w
        else if is_claimable now (now - 60000) w.outbox
        then run config request lease (claim now lease w)
        else w

    -- `process` with no other worker in between.
    unfoldable pub process : Option Method → (World → Reply) → ℕ → String → World → World
    unfolding process_from
    process config request now lease w = process_from config request now lease w w
