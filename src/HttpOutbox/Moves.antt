-- ===== src/HttpOutbox/Moves.antt =====
-- What holds of a request of apps/worker/src/external-http/external-http-outbox.service.ts whatever the
-- workers do and in whatever order their statements come.
use manychat.Prelude.{
  ℕ, String, Bool, true, false, ◌&&◌, Option, none, some, length, if◌then◌else◌, ◌≡◌, arith,
}
use manychat.Value.{Value}
use manychat.Automation.HttpConfig.{Method}
use manychat.Http.Transport.{ExternalHttpOutcome}
use manychat.HttpOutbox.Row.{
  OutboxRecordStatus, succeeded, failed, unknown, Operation, Execution, Resume, World,
  is_processing, is_claimable,
}
use manychat.HttpOutbox.Process.{
  Answer, Reply, answers, fails, breaks, conclude, conclude_failure, succeed, retry_later,
  finish_permanent, mark_unknown, claim, is_failure, is_retry_status, attempts_left, is_get,
}

-- The outcomes that hand the execution back to the runtime.
abbrev pub is_resumed : OutboxRecordStatus → Bool
is_resumed succeeded = true
is_resumed failed = true
is_resumed _ = false

-- The statuses in which nobody works on the request any more.
abbrev pub is_final : OutboxRecordStatus → Bool
is_final unknown = true
is_final status = is_resumed status

abbrev pub is_some {ℓ} : {A : Type ℓ} → Option A → Bool
is_some none = false
is_some (some a) = true

pub record Consistent (w : World) : Type 0 where
  pub resumed_once : length w.resumes ≡ (if is_resumed w.outbox.status then 1 else 0)
  pub locked : is_some w.outbox.locked_by ≡ is_processing w.outbox.status
  pub leased : is_some w.outbox.locked_at ≡ is_processing w.outbox.status
  pub completed : is_some w.outbox.completed_at ≡ is_final w.outbox.status

module _ (runtime : Resume → Execution → Execution) (status_value : ℕ → Value)
    (code_of : ℕ → String) where
  -- One statement of some worker, with whatever it has read before, whenever it reads the clock.
  pub data Move (w after : World) : Type 0 where
    claims :
        (now lease_expired_before : ℕ) (lease : String)
        → is_claimable now lease_expired_before w.outbox ≡ true
        → after ≡ claim now lease w
        → Move w after
    settles :
        (clock : ℕ → ℕ) (reply : Reply) (method : Method) (lease : String) (refreshed : World)
        → after ≡ conclude runtime status_value clock code_of reply method lease refreshed w
        → Move w after
    refuses :
        (clock : ℕ → ℕ) (operation : Operation) (lease code : String)
        → after ≡ finish_permanent runtime status_value clock operation lease code w
        → Move w after
    expires :
        (clock : ℕ → ℕ) (operation : Operation) (code : String)
        → after ≡ mark_unknown runtime status_value clock operation code none w
        → Move w after

  pub data Reach (w : World) : World → Type 0 where
    here : Reach w w
    next : {middle after : World} → Reach w middle → Move middle after → Reach w after

  finish_permanent-Consistent :
      (clock : ℕ → ℕ) (operation : Operation) (lease code : String) (w : World)
      → Consistent w
      → Consistent (finish_permanent runtime status_value clock operation lease code w)
  unfolding finish_permanent
  finish_permanent-Consistent clock operation lease code w v = ground arith

  succeed-Consistent :
      (clock : ℕ → ℕ) (refreshed : World) (lease : String) (a : Answer) (w : World)
      → Consistent w
      → Consistent (succeed runtime status_value clock refreshed lease a w)
  unfolding succeed
  succeed-Consistent clock refreshed lease a w v = ground arith

  retry_later-Consistent :
      (clock : ℕ → ℕ) (refreshed : World) (lease code : String) (w : World)
      → Consistent w
      → Consistent (retry_later runtime status_value clock refreshed lease code w)
  unfolding retry_later
  retry_later-Consistent clock refreshed lease code w v = ground arith

  mark_unknown-Consistent :
      (clock : ℕ → ℕ) (operation : Operation) (code : String) (lease : Option String) (w : World)
      → Consistent w
      → Consistent (mark_unknown runtime status_value clock operation code lease w)
  unfolding mark_unknown
  mark_unknown-Consistent clock operation code none w v = ground arith
  mark_unknown-Consistent clock operation code (some lease) w v = ground arith

  -- What holds after each of the four endings holds after the settling of a reply.
  module _ {ℓ} (P : World → Type ℓ) (clock : ℕ → ℕ) (method : Method) (lease : String)
      (refreshed w : World)
      (retried : (code : String)
        → P (retry_later runtime status_value clock refreshed lease code w))
      (succeeds : (a : Answer) → P (succeed runtime status_value clock refreshed lease a w))
      (gives_up : (code : String)
        → P (finish_permanent runtime status_value clock refreshed.operation lease code w))
      (uncertain : (code : String)
        → P (mark_unknown runtime status_value clock refreshed.operation code (some lease) w)) where
    chosen : (b : Bool) {x y : World} → P x → P y → P (if b then x else y)
    chosen true p q = p
    chosen false p q = q

    conclude_failure-case :
        (outcome : ExternalHttpOutcome) (code : String)
        → P (conclude_failure runtime status_value clock outcome code method lease refreshed w)
    conclude_failure-case ExternalHttpOutcome.retryable_failure code =
        chosen (attempts_left refreshed) (retried code) (gives_up code)
    conclude_failure-case ExternalHttpOutcome.unknown code =
        chosen (is_get method && attempts_left refreshed) (retried code) (uncertain code)
    conclude_failure-case ExternalHttpOutcome.permanent_failure code = gives_up code

    pub conclude-case :
        (reply : Reply)
        → P (conclude runtime status_value clock code_of reply method lease refreshed w)
    unfolding conclude
    conclude-case (answers a) =
        chosen (is_failure a.outcome && is_retry_status a.status_code && attempts_left refreshed)
          (retried (code_of a.status_code)) (succeeds a)
    conclude-case (fails e) = conclude_failure-case e.outcome e.safe_code
    conclude-case breaks =
        conclude_failure-case ExternalHttpOutcome.unknown "external_http_unexpected_unknown"

  claim-Consistent :
      (now lease_expired_before : ℕ) (lease : String) (w : World)
      → is_claimable now lease_expired_before w.outbox ≡ true
      → Consistent w
      → Consistent (claim now lease w)
  unfolding is_claimable
  claim-Consistent now lease_expired_before lease w h v = ground arith

  Move-Consistent : {w after : World} → Move w after → Consistent w → Consistent after
  Move-Consistent {w} (claims now before lease h e) v =
      rw e (claim-Consistent now before lease w h v)
  Move-Consistent {w} (settles clock reply method lease refreshed e) v = rw e (
      conclude-case Consistent clock method lease refreshed w
        (λ code. retry_later-Consistent clock refreshed lease code w v)
        (λ a. succeed-Consistent clock refreshed lease a w v)
        (λ code. finish_permanent-Consistent clock refreshed.operation lease code w v)
        (λ code. mark_unknown-Consistent clock refreshed.operation code (some lease) w v) reply)
  Move-Consistent {w} (refuses clock operation lease code e) v =
      rw e (finish_permanent-Consistent clock operation lease code w v)
  Move-Consistent {w} (expires clock operation code e) v =
      rw e (mark_unknown-Consistent clock operation code none w v)

  -- Whatever the workers do, in any order and with reads that may be out of date: the runtime is called
  -- once for a request that has succeeded or failed and not before, a lease is held exactly while the
  -- request is being processed, and the time of completion is set exactly in the final statuses.
  pub reach-Consistent : {w after : World} → Consistent w → Reach w after → Consistent after
  reach-Consistent v here = v
  reach-Consistent v (next r m) = Move-Consistent m (reach-Consistent v r)
