-- ===== src/Http/Body.antt =====
-- The receiving side of `requestPinned` (packages/automation-http/src/index.ts): what its callbacks make
-- of the events of a response, one at a time. `bytes` counts a chunk's bytes.
pub mod Laws
use manychat.Prelude.{
  ℕ, ◌+◌, ◌*◌, ◌<◌, String, Bool, true, false, List, [], ◌∷◌, ◌++◌, Option, none, some, ltb,
  if◌then◌else◌,
}
use manychat.Http.Transport.{ExternalHttpError, unknown, permanent_failure}

-- 5 * 1024 * 1024
abbrev pub maximum_response_bytes : ℕ
maximum_response_bytes = 5 * 1024 * 1024

pub data Event (Chunk : Type 0) : Type 0 where
  data_ : Chunk → Event Chunk
  -- `error` of the response or of the request, with an `ExternalHttpError` or another error
  broken : Option ExternalHttpError → Event Chunk
  timeout end : Event Chunk

-- `reject` or `resolve`, with the chunks that are concatenated.
pub data Settled (Chunk : Type 0) : Type 0 where
  rejected : ExternalHttpError → Settled Chunk
  resolved : List Chunk → Settled Chunk

-- `settled` is the outcome of the promise, once there is one.
pub record Receiver (Chunk : Type 0) : Type 0 where
  pub chunks : List Chunk
  pub size : ℕ
  pub settled : Option (Settled Chunk)

abbrev pub response_too_large : ExternalHttpError
response_too_large = record {
  outcome = permanent_failure;
  safe_code = "external_http_response_too_large";
}

-- The error that `fail` rejects with.
abbrev failure_of : Option ExternalHttpError → ExternalHttpError
failure_of (some error) = error
failure_of none = record { outcome = unknown; safe_code = "external_http_transport_unknown" }

abbrev timed_out : ExternalHttpError
timed_out = record { outcome = unknown; safe_code = "external_http_timeout_unknown" }

-- `if (settled) return; settled = true`, and the promise takes the outcome.
abbrev pub or_before :
    {Chunk : Type 0} → Option (Settled Chunk) → Settled Chunk → Option (Settled Chunk)
or_before (some before) outcome = some before
or_before none outcome = some outcome

abbrev pub settle : {Chunk : Type 0} → Settled Chunk → Receiver Chunk → Receiver Chunk
settle outcome r = record r { settled = or_before r.settled outcome }

abbrev pub fresh : {Chunk : Type 0} → Receiver Chunk
fresh = record { chunks = []; size = 0; settled = none }

module _ {Chunk : Type 0} (bytes : Chunk → ℕ) where
  unfoldable pub receive : Receiver Chunk → Event Chunk → Receiver Chunk
  receive r (data_ chunk) =
      let size = r.size + bytes chunk in
      if ltb maximum_response_bytes size
      then settle (rejected response_too_large) (record r { size = size })
      else record r { chunks = r.chunks ++ chunk ∷ []; size = size }
  receive r (broken e) = settle (rejected (failure_of e)) r
  receive r timeout = settle (rejected timed_out) r
  receive r end = settle (resolved r.chunks) r

  unfoldable pub receive_all : Receiver Chunk → List (Event Chunk) → Receiver Chunk
  unfolding receive
  receive_all r [] = r
  receive_all r (event ∷ events) = receive_all (receive r event) events

  -- The response callback: `declared` is the number in the header content-length, if it is one.
  unfoldable pub response_of : Option ℕ → List (Event Chunk) → Option (Settled Chunk)
  unfolding receive_all
  response_of none events = (receive_all fresh events).settled
  response_of (some declared) events =
      if ltb maximum_response_bytes declared
      then some (rejected response_too_large)
      else (receive_all fresh events).settled
