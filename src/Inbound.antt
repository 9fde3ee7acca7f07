-- ===== src/Inbound.antt =====
-- Failures of inbound Telegram updates: apps/worker/src/telegram-inbound/telegram-inbound-failure.ts.
pub mod Laws
mod Tests
use manychat.Prelude.{
  ℕ, ◌+◌, ◌-◌, ◌*◌, ◌^◌, String, Bool, true, false, List, [], ◌∷◌, Option, none, some, has, leb,
  ◌==◌, if◌then◌else◌,
}

pub data FailureKind : Type 0 where
  permanent retryable : FailureKind

pub record Failure : Type 0 where
  pub code : String
  pub kind : FailureKind

-- An error by its class. `failure` is any other `Error` and `thrown` a value that is none; the class of
-- the client's known errors is one of `Error` too, so it has a name and a message.
pub data Thrown : Type 0 where
  lease_conflict reaction_target_pending reaction_identity_mismatch : Thrown
  known_request : (code name message : String) → Thrown
  initialization unknown_request : Thrown
  failure : (code : Option String) → (name message : String) → Thrown
  thrown : Thrown

abbrev pub retryable_prisma_codes : List String
retryable_prisma_codes = "P1001" ∷ "P1002" ∷ "P1008" ∷ "P1017" ∷ []

abbrev pub permanent_prisma_codes : List String
permanent_prisma_codes = "P2002" ∷ "P2003" ∷ "P2025" ∷ []

abbrev pub retryable_network_codes : List String
retryable_network_codes =
    "ECONNABORTED" ∷ "ECONNREFUSED" ∷ "ECONNRESET" ∷ "EHOSTUNREACH" ∷ "ENETUNREACH" ∷ "ETIMEDOUT"
    ∷ []

abbrev pub retry : String → Failure
retry code = record { code = code; kind = retryable }

abbrev pub give_up : String → Failure
give_up code = record { code = code; kind = permanent }

-- `errorCode && retryableNetworkCodes.has(errorCode)`, and the last return.
abbrev pub by_code : Option String → Failure
by_code none = retry "telegram_inbound_processing_failed"
by_code (some code) =
    if has code retryable_network_codes
    then retry "telegram_inbound_dependency_transient"
    else retry "telegram_inbound_processing_failed"

-- The tests for any `Error`.
abbrev pub by_text : Option String → String → String → Failure
by_text code name message =
    if message == "Telegram update is malformed"
    then give_up "telegram_inbound_malformed_update"
    else if message == "Telegram identity subject is missing"
    then give_up "telegram_inbound_missing_identity_subject"
    else if name == "TimeoutError"
    then retry "telegram_inbound_timeout"
    else by_code code

unfoldable pub classify_telegram_inbound_failure : Thrown → Failure
classify_telegram_inbound_failure lease_conflict = retry "telegram_inbound_lease_conflict"
classify_telegram_inbound_failure reaction_target_pending =
    retry "telegram_inbound_reaction_target_pending"
classify_telegram_inbound_failure reaction_identity_mismatch =
    give_up "telegram_inbound_reaction_identity_mismatch"
classify_telegram_inbound_failure (known_request code name message) =
    if has code retryable_prisma_codes
    then retry "telegram_inbound_database_transient"
    else if has code permanent_prisma_codes
    then give_up "telegram_inbound_data_constraint"
    else by_text (some code) name message
classify_telegram_inbound_failure initialization = retry "telegram_inbound_database_transient"
classify_telegram_inbound_failure unknown_request = retry "telegram_inbound_database_transient"
classify_telegram_inbound_failure (failure code name message) = by_text code name message
classify_telegram_inbound_failure thrown = retry "telegram_inbound_processing_failed"

abbrev pub retry_base_delay_milliseconds : ℕ
retry_base_delay_milliseconds = 1000

abbrev pub retry_delay_maximum_milliseconds : ℕ
retry_delay_maximum_milliseconds = 300000

-- `Math.min` and `Math.max`
abbrev pub smaller : ℕ → ℕ → ℕ
smaller a b = if leb a b then a else b

abbrev pub larger : ℕ → ℕ → ℕ
larger a b = if leb a b then b else a

-- The delay without the jitter. The powers of two are exact as doubles, and beyond the maximum anyway
-- from the tenth attempt on.
unfoldable pub capped : ℕ → ℕ
capped attempts =
    smaller (retry_base_delay_milliseconds * 2 ^ (larger 1 attempts - 1))
      retry_delay_maximum_milliseconds

unfoldable pub jitter : ℕ → ℕ
jitter attempts = smaller 250 (larger 1 attempts * 17)

unfoldable pub retry_delay_milliseconds : ℕ → ℕ
unfolding capped jitter
retry_delay_milliseconds attempts =
    smaller retry_delay_maximum_milliseconds (capped attempts + jitter attempts)
