-- ===== src/HttpOutbox/Leases.antt =====
-- Leases of apps/worker/src/external-http/external-http-outbox.service.ts: who may still write, and what
-- becomes of a lease that is dated back to the start of the scan when the read of another worker is old.
use manychat.Prelude.{
  ℕ, ◌+◌, ◌<◌, String, true, false, ◌&&◌, Option, none, some, ◌==◌, eq_iff, ◌≡◌, ◌≢◌, ◌∙◌, refl,
  arith, sym, eq_of_some-eq-some,
}
use manychat.Value.{Value}
use manychat.Automation.HttpConfig.{Method}
use manychat.HttpOutbox.Row.{
  OutboxRecord, OutboxRecordStatus, unknown, Operation, Execution, Resume, World, is_processing,
  is_waiting, is_claimable, is_held, is_http, not_after, before, locked_by_is,
}
use manychat.HttpOutbox.Process.{
  Reply, conclude, succeed, retry_later, finish_permanent, mark_unknown, claim, process_from,
  is_get,
}
use manychat.HttpOutbox.Moves.{Move, is_final, conclude-case, claims, settles, refuses, expires}

module _ (runtime : Resume → Execution → Execution) (status_value : ℕ → Value)
    (code_of : ℕ → String) where
  -- A statement that does not find the row held writes nothing.
  finish_permanent-not_held :
      (clock : ℕ → ℕ) (operation : Operation) (lease code : String) (w : World)
      → is_held (some lease) operation w.outbox ≡ false
      → finish_permanent runtime status_value clock operation lease code w ≡ w
  unfolding finish_permanent
  finish_permanent-not_held clock operation lease code w h = ground arith

  mark_unknown-not_held :
      (clock : ℕ → ℕ) (operation : Operation) (code : String) (lease : Option String) (w : World)
      → is_held lease operation w.outbox ≡ false
      → mark_unknown runtime status_value clock operation code lease w ≡ w
  unfolding mark_unknown
  mark_unknown-not_held clock operation code none w h = ground arith
  mark_unknown-not_held clock operation code (some lease) w h = ground arith

  conclude-not_held :
      (clock : ℕ → ℕ) (reply : Reply) (method : Method) (lease : String) (refreshed w : World)
      → is_held (some lease) refreshed.operation w.outbox ≡ false
      → conclude runtime status_value clock code_of reply method lease refreshed w ≡ w
  unfolding retry_later succeed
  conclude-not_held clock reply method lease refreshed w h =
      conclude-case runtime status_value code_of (λ x. x ≡ w) clock method lease refreshed w
        (λ code. ground arith) (λ a. ground arith)
        (λ code. finish_permanent-not_held clock refreshed.operation lease code w h)
        (λ code. mark_unknown-not_held clock refreshed.operation code (some lease) w h) reply

  -- A worker whose lease is not the row's any more changes nothing, whatever reply it comes with.
  pub conclude-fenced :
      (clock : ℕ → ℕ) (reply : Reply) (method : Method) (lease : String) (refreshed w : World)
      → w.outbox.locked_by ≢ some lease
      → conclude runtime status_value clock code_of reply method lease refreshed w ≡ w
  unfolding is_held
  conclude-fenced clock reply method lease refreshed w other =
      conclude-not_held clock reply method lease refreshed w (not_locked w.outbox.locked_by other)
    where
      not_locked :
          (owner : Option String)
          → owner ≢ some lease
          → (locked_by_is lease owner
              && w.outbox.project_id == refreshed.operation.project_id
              && is_processing w.outbox.status)
            ≡ false
      not_locked none other = refl
      not_locked (some owner) other = ground (arith, eq_iff owner lease, other)

  final-not_processing : (s : OutboxRecordStatus) → is_final s ≡ true → is_processing s ≡ false
  final-not_processing s h = ground arith

  final-not_held :
      (lease : Option String) (operation : Operation) (o : OutboxRecord)
      → is_final o.status ≡ true
      → is_held lease operation o ≡ false
  unfolding is_held
  final-not_held none operation o h = ground (arith, final-not_processing o.status h)
  final-not_held (some lease) operation o h = ground (arith, final-not_processing o.status h)

  final-not_claimable :
      (now lease_expired_before : ℕ) (o : OutboxRecord)
      → is_final o.status ≡ true
      → is_claimable now lease_expired_before o ≡ false
  unfolding is_claimable
  final-not_claimable now lease_expired_before o h = ground arith

  -- Once a request has succeeded, failed or been marked unknown, no statement of any worker changes it.
  pub Move-final :
      {w after : World}
      → Move runtime status_value code_of w after
      → is_final w.outbox.status ≡ true
      → after ≡ w
  Move-final {w} (claims now before lease h e) f = cc (final-not_claimable now before w.outbox f, h)
  Move-final {w} (settles clock reply method lease refreshed e) f =
      e
      ∙ conclude-not_held clock reply method lease refreshed w
          (final-not_held (some lease) refreshed.operation w.outbox f)
  Move-final {w} (refuses clock operation lease code e) f =
      e
      ∙ finish_permanent-not_held clock operation lease code w
          (final-not_held (some lease) operation w.outbox f)
  Move-final {w} (expires clock operation code e) f =
      e
      ∙ mark_unknown-not_held clock operation code none w (final-not_held none operation w.outbox f)

  other_lease :
      (now : ℕ) (lease later_lease : String) (w : World)
      → lease ≢ later_lease
      → (claim now later_lease w).outbox.locked_by ≢ some lease
  other_lease now lease later_lease w differ h = differ (sym (eq_of_some-eq-some h))

  -- Two workers have read a request that may have effects while it was waiting and due. The first claims
  -- it, with the time at which its scan began as the start of the lease, and sends it. The second is in
  -- a scan that began more than a minute after that one, and goes on from its read only now: its claim
  -- goes through too, it sends the request as well and concludes with the reply, and whatever the first
  -- worker concludes after the second claim, its reply changes nothing. Had the second worker read the
  -- row after the claim of the first, it would have marked the request as unknown without sending it.
  pub stale_read-sends_twice :
      (clock later_clock : ℕ → ℕ) (method : Method) (request : World → Reply) (reply : Reply)
      (scan later_scan : ℕ) (lease later_lease : String) (w : World)
      → is_get method ≡ false
      → is_http w.outbox.kind ≡ true
      → is_waiting w.outbox.status ≡ true
      → not_after w.outbox.next_attempt_at scan ≡ true
      → w.outbox.project_id ≡ w.operation.project_id
      → scan + 60000 < later_scan
      → lease ≢ later_lease
      → let sent = claim scan lease w in
        let again = claim later_scan later_lease sent in
        let process_again =
          process_from runtime status_value later_clock code_of
            (some method)
            request
            later_scan
            later_lease in
        (process_from runtime status_value clock code_of (some method) request scan lease w w
          ≡ conclude runtime status_value clock code_of (request sent) method lease sent sent)
        × (process_again w sent
            ≡ conclude runtime status_value later_clock code_of
                (request again)
                method
                later_lease
                again
                again)
        × (conclude runtime status_value clock code_of reply method lease sent again ≡ again)
        × ((process_again sent sent).outbox.status ≡ unknown)
  unfolding process_from mark_unknown
  stale_read-sends_twice clock later_clock method request reply scan later_scan lease later_lease w
        m k s d p late differ =
      let sent = claim scan lease w in
      (
        ground arith,
        ground arith,
        conclude-fenced clock reply method lease sent (claim later_scan later_lease sent)
            (other_lease later_scan lease later_lease sent differ),
        ground (arith, eq_iff w.outbox.project_id w.operation.project_id),
      )
