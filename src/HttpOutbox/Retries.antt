-- ===== src/HttpOutbox/Retries.antt =====
-- The retries of apps/worker/src/external-http/external-http-outbox.service.ts: a request whose target
-- never answers comes to an end.
use manychat.Prelude.{
  power-pos, power_mono, ℕ, ◌^◌, ◌≤◌, String, true, List, [], ◌∷◌, some, ◌≡◌, arith,
}
use manychat.Value.{Value}
use manychat.Automation.HttpConfig.{Method}
use manychat.Http.Transport.{retryable_failure}
use manychat.HttpOutbox.Row.{
  Execution, Resume, World, is_waiting, is_http, min, not_after, retry_delay,
}
use manychat.HttpOutbox.Process.{fails, process}

-- The delay before the next attempt doubles from a second up to 256 seconds, and stays there.
pub retry_delay_bounds :
    (attempts : ℕ) → (1000 ≤ retry_delay attempts) × (retry_delay attempts ≤ 256000)
unfolding retry_delay
retry_delay_bounds attempts =
    let low : 1 ≤ 2 ^ min attempts 8 = power-pos (min attempts 8) in
    let high : 2 ^ min attempts 8 ≤ 2 ^ 8 = power_mono (min attempts 8) 8 (ground arith) in
    ground (arith, low, high)

-- A scan that takes the row up, under a lease, with the code of the failure.
pub record Attempt : Type 0 where
  pub now : ℕ
  pub lease : String
  pub clock : ℕ → ℕ
  pub code : String

module _ (runtime : Resume → Execution → Execution) (status_value : ℕ → Value)
    (code_of : ℕ → String) (method : Method) where
  -- A round whose request fails in a way that may pass.
  unfoldable pub fail_once : Attempt → World → World
  fail_once r w =
      process runtime status_value r.clock code_of (some method)
        (λ _. fails (record { outcome = retryable_failure; safe_code = r.code })) r.now r.lease w

  unfoldable pub fail_all : List Attempt → World → World
  fail_all [] w = w
  fail_all (r ∷ rounds) w = fail_all rounds (fail_once r w)

  -- Each scan comes when the row is due.
  abbrev pub Due : List Attempt → World → Type 0
  Due [] w = Unit
  Due (r ∷ rounds) w =
      (not_after w.outbox.next_attempt_at r.now ≡ true) × Due rounds (fail_once r w)

  -- The row waits for an attempt.
  pub record Waits (w : World) : Type 0 where
    pub kind : is_http w.outbox.kind ≡ true
    pub status : is_waiting w.outbox.status ≡ true
    pub project : w.outbox.project_id ≡ w.operation.project_id
