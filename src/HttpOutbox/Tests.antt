-- ===== src/HttpOutbox/Tests.antt =====
-- Runs of apps/worker/src/external-http/external-http-outbox.service.ts on one request, and the theorems
-- at them.
use manychat.Prelude.{
  eq_of_some-eq-some, eq_iff, ℕ, String, true, [], none, some, ◌≡◌, ◌≢◌, refl, arith,
}
use manychat.Prelude.Int.{pos}
use manychat.Value.{Value, num, obj, end, field, with_member, own, member}
use manychat.Automation.HttpConfig.{post}
use manychat.HttpOutbox.Row.{
  OutboxRecordStatus, succeeded, unknown, http, Execution, ExecutionStatus, NodeStatus, Resume,
  World, success, is_claimable,
}
use manychat.HttpOutbox.Process.{
  Answer, answers, breaks, conclude, claim, process, process_from, with_node_status,
}
use manychat.HttpOutbox.Moves.{
  Consistent, Reach, claims, settles, here, next, reach-Consistent, is_final,
}
use manychat.HttpOutbox.Leases.{conclude-fenced, stale_read-sends_twice}
use manychat.HttpOutbox.Retries.{Attempt}

abbrev runtime : Resume → Execution → Execution
runtime call e = record e { status = ExecutionStatus.running }

abbrev number : ℕ → Value
number n = num (pos n)

abbrev code_of : ℕ → String
code_of n = "external_http_status"

abbrev noon : ℕ → ℕ
noon n = 70000

abbrev due : World
due = record {
  outbox = record {
    project_id = "p";
    kind = http;
    status = OutboxRecordStatus.pending;
    attempts = 0;
    max_attempts = 2;
    next_attempt_at = some 5;
    locked_at = none;
    locked_by = none;
    last_error = none;
    completed_at = none;
  };
  operation = record {
    project_id = "p";
    scenario_execution_id = "e";
    node_id = "n";
    success_node_id = some "a";
    failure_node_id = some "b";
    result_safe = none;
  };
  execution = record {
    status = ExecutionStatus.waiting;
    error = none;
    node_status = NodeStatus.processing;
    node_error = none;
    node_completed_at = none;
    variables = obj end;
  };
  resumes = [];
}

abbrev fine : Answer
fine = record {
  content_type = none;
  mapped_variables = obj end;
  mapping_keys = [];
  outcome = success;
  size_bytes = 0;
  status_code = 200;
}

node_status_run :
    with_node_status (obj end) "n" (number 200)
    ≡ obj (
        field "nodes"
          (obj (field "n" (obj (field "response" (obj (field "status" (number 200) end)) end)) end))
          end)
unfolding with_node_status own with_member member
node_status_run = refl

abbrev sent : World
sent = claim 70000 "lease" due

answered_run :
    conclude runtime number noon code_of (answers fine) post "lease" sent sent
    ≡ process runtime number noon code_of (some post) (λ w. answers fine) 70000 "lease" due
unfolding process conclude
answered_run = refl

answered_status :
    (process runtime number noon code_of
      (some post)
      (λ w. answers fine)
      70000
      "lease"
      due).outbox.status
    ≡ succeeded
unfolding process conclude
answered_status = refl

due-Consistent : Consistent due
due-Consistent = record { resumed_once = refl; locked = refl; leased = refl; completed = refl }

due-claimable : is_claimable 70000 10000 due.outbox ≡ true
unfolding is_claimable
due-claimable = refl

abbrev replied : World
replied = conclude runtime number noon code_of (answers fine) post "lease" sent sent

sent_and_answered : Reach runtime number code_of due replied
sent_and_answered =
    next (next here (claims 70000 10000 "lease" due-claimable refl))
      (settles noon (answers fine) post "lease" sent refl)

reach-Consistent_example : Consistent replied
reach-Consistent_example = reach-Consistent runtime number code_of due-Consistent sent_and_answered

lease-ne-lost : sent.outbox.locked_by ≢ some "lost"
lease-ne-lost h = ground (arith, eq_iff "lease" "lost", eq_of_some-eq-some h)

conclude-fenced_example :
    conclude runtime number noon code_of (answers fine) post "lost" sent sent ≡ sent
conclude-fenced_example =
    conclude-fenced runtime number code_of noon (answers fine) post "lost" sent sent lease-ne-lost

answered-final : is_final replied.outbox.status ≡ true
unfolding conclude
answered-final = refl

unchanged : conclude runtime number noon code_of breaks post "lease" sent replied ≡ replied
unfolding conclude
unchanged = refl

one-ne-other : ◌≢◌ {A = String} "lease" "other"
one-ne-other h = ground (arith, eq_iff "lease" "other")

abbrev sent_again : World
sent_again = claim 140000 "other" sent

stale_read-sends_twice_example :
    (process_from runtime number noon code_of (some post) (λ w. breaks) 70000 "lease" due due
      ≡ conclude runtime number noon code_of breaks post "lease" sent sent)
    × (process_from runtime number noon code_of (some post) (λ w. breaks) 140000 "other" due sent
        ≡ conclude runtime number noon code_of breaks post "other" sent_again sent_again)
    × (conclude runtime number noon code_of (answers fine) post "lease" sent sent_again
        ≡ sent_again)
    × ((process_from runtime number noon code_of
          (some post)
          (λ w. breaks)
          140000
          "other"
          sent
          sent).outbox.status
        ≡ unknown)
stale_read-sends_twice_example =
    stale_read-sends_twice runtime number code_of noon noon post (λ w. breaks) (answers fine) 70000
      140000 "lease" "other" due refl refl refl refl refl (omega arith) one-ne-other

abbrev first_round : Attempt
first_round = record { now = 70000; lease = "one"; clock = noon; code = "down" }

abbrev second_round : Attempt
second_round = record { now = 80000; lease = "two"; clock = noon; code = "down" }
