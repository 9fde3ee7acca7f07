-- ===== src/Inbound/Laws.antt =====
-- How long a failed update waits for its next attempt, and which failures are final.
use manychat.Prelude.{
  power-pos, power_mono, ℕ, ◌+◌, ◌-◌, ◌^◌, ◌≤◌, String, ◌≡◌, true, false, ◌||◌, ◌↔◌, List, [], ◌∷◌,
  Option, none, some, has, arith, ◌==◌, eq_iff, ◌⊎◌,
}
use manychat.Inbound.{
  permanent, Thrown, lease_conflict, reaction_target_pending, reaction_identity_mismatch,
  known_request, initialization, unknown_request, failure, thrown, retryable_prisma_codes,
  permanent_prisma_codes, by_text, classify_telegram_inbound_failure, larger, capped,
  retry_delay_milliseconds,
}

-- A delay lies between the base delay with its jitter and the maximum, it is never shorter than the
-- capped exponential, and longer than that by 250 milliseconds at most.
pub retry_delay-bounds :
    (attempts : ℕ)
    → (1017 ≤ retry_delay_milliseconds attempts)
      × (retry_delay_milliseconds attempts ≤ 300000)
      × (capped attempts ≤ retry_delay_milliseconds attempts)
      × (retry_delay_milliseconds attempts ≤ capped attempts + 250)
unfolding retry_delay_milliseconds
retry_delay-bounds attempts =
    let p : 1 ≤ 2 ^ (larger 1 attempts - 1) = power-pos (larger 1 attempts - 1) in
    (ground arith, ground arith, ground arith, ground arith)

-- A later attempt waits at least as long.
pub retry_delay_mono : (a b : ℕ) → a ≤ b → retry_delay_milliseconds a ≤ retry_delay_milliseconds b
unfolding retry_delay_milliseconds
retry_delay_mono a b h =
    let p : 2 ^ (larger 1 a - 1) ≤ 2 ^ (larger 1 b - 1) = power_mono _ _ (ground arith) in
    ground arith

-- From the tenth attempt on the delay is the maximum.
pub retry_delay-saturates :
    (attempts : ℕ) → 10 ≤ attempts → retry_delay_milliseconds attempts ≡ 300000
unfolding retry_delay_milliseconds
retry_delay-saturates attempts h =
    let p : 2 ^ 9 ≤ 2 ^ (larger 1 attempts - 1) = power_mono 9 _ (ground arith) in ground arith

-- The messages of errors that stay.
abbrev pub final_messages : List String
final_messages = "Telegram update is malformed" ∷ "Telegram identity subject is missing" ∷ []

-- The failures that no later attempt can mend.
abbrev pub Final : Thrown → Type 0
Final reaction_identity_mismatch = Unit {0}
Final (known_request code name message) =
    (has code retryable_prisma_codes ≡ false)
    × ((has code permanent_prisma_codes ≡ true) ⊎ (has message final_messages ≡ true))
Final (failure code name message) = has message final_messages ≡ true
Final _ = true ≡ false

-- A text is one of the final messages exactly when one of the two tests of the code holds.
final_messages-has :
    (message : String)
    → has message final_messages ≡ (
        message == "Telegram update is malformed"
        || message == "Telegram identity subject is missing")
final_messages-has message = ground (
  arith,
  eq_iff message "Telegram update is malformed",
  eq_iff "Telegram update is malformed" message,
  eq_iff message "Telegram identity subject is missing",
  eq_iff "Telegram identity subject is missing" message,
)

by_text-permanent :
    (code : Option String) (name message : String)
    → ((by_text code name message).kind ≡ permanent) ↔ (has message final_messages ≡ true)
by_text-permanent none name message = ground (arith, final_messages-has message)
by_text-permanent (some code) name message = ground (arith, final_messages-has message)

-- A failure is classified as permanent exactly when it is an identity mismatch, one of the constraint
-- codes of the database, or an error with one of the two final messages (and no transient code of the
-- database); every other value that is thrown, known or not, is retried.
pub classify-permanent :
    (e : Thrown) → ((classify_telegram_inbound_failure e).kind ≡ permanent) ↔ Final e
unfolding classify_telegram_inbound_failure
classify-permanent lease_conflict = ground arith
classify-permanent reaction_target_pending = ground arith
classify-permanent reaction_identity_mismatch = ground arith
classify-permanent (known_request code name message) =
    ground (arith, by_text-permanent (some code) name message)
classify-permanent initialization = ground arith
classify-permanent unknown_request = ground arith
classify-permanent (failure code name message) = by_text-permanent code name message
classify-permanent thrown = ground arith
