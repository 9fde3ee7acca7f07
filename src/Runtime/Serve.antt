-- ===== src/Runtime/Serve.antt =====
-- The calls of apps/worker/src/automation/automation-runtime.service.ts, in any order and at any times.
mod Tests
use manychat.Prelude.{ℕ, String, List, [], ◌∷◌, Option}
use manychat.Value.{Value}
use manychat.Runtime.Rows.{Rows, Completion, exhausted, throws, returns, Action}
use manychat.Runtime.Project.{Project}
use manychat.Runtime.Service.{
  resume_delayed_action, timeout_wait, resolve_waits, trigger_event, resume_external_http,
}
use manychat.Runtime.Lifecycle.{Property, Holds, Leaves, Lifecycle}
use manychat.Runtime.Settled.{Settled, IsSettled, nobody, only, Settled-Lifecycle}
use manychat.Runtime.Preserved.{Preserves}
use manychat.Runtime.Calls.{
  resume_delayed_action-Preserves, timeout_wait-Preserves, resolve_waits-Preserves,
  trigger_event-Preserves, resume_http-Preserves,
}

-- A call of the service, at a time.
pub data Call : Type 0 where
  event_comes event_triggers : (event : String) → Call
  delay_ends : (action : String) → Call
  wait_ends : (wait : String) → Call
  request_ends : (execution node : String) (mapped : Value) (start : Option String) → Call

module _ (p : Project) (lower : String → String) (fuel : ℕ) where
  abbrev pub run_call : ℕ → Call → Action (Unit {0})
  run_call now (event_comes event) = resolve_waits p lower fuel now event
  run_call now (event_triggers event) = trigger_event p lower fuel now event
  run_call now (delay_ends action) = resume_delayed_action p lower fuel now action
  run_call now (wait_ends wait) = timeout_wait p lower fuel now wait
  run_call now (request_ends execution node mapped start) =
      resume_external_http p lower fuel now execution node mapped start

  -- A transaction that fails is rolled back.
  abbrev pub committed : Completion (Unit {0}) → Rows → Rows
  committed exhausted before = before
  committed (throws e) before = before
  committed (returns u after) before = after

  unfoldable pub serve : List (ℕ × Call) → Rows → Rows
  serve [] rows = rows
  serve ((now, c) ∷ calls) rows = serve calls (committed (run_call now c rows) rows)

module _ (p : Project) (J : Property) (H : String → Property) (life : Lifecycle p J H)
    (lower : String → String) (fuel : ℕ) where
  run_call-Preserves : (now : ℕ) (c : Call) → Preserves J (run_call p lower fuel now c)
  run_call-Preserves now (event_comes event) =
      resolve_waits-Preserves p J H life lower fuel now event
  run_call-Preserves now (event_triggers event) =
      trigger_event-Preserves p J H life lower fuel now event
  run_call-Preserves now (delay_ends action) =
      resume_delayed_action-Preserves p J H life lower fuel now action
  run_call-Preserves now (wait_ends wait) = timeout_wait-Preserves p J H life lower fuel now wait
  run_call-Preserves now (request_ends execution node mapped start) =
      resume_http-Preserves p J H life lower fuel now execution node mapped start

  committed-Holds :
      (c : Completion (Unit {0})) (before : Rows)
      → Holds J before
      → Leaves J c
      → Holds J (committed p lower fuel c before)
  committed-Holds exhausted before u h = u
  committed-Holds (throws e) before u h = u
  committed-Holds (returns x after) before u h = h

  pub serve-Holds :
      (calls : List (ℕ × Call)) (rows : Rows)
      → Holds J rows
      → Holds J (serve p lower fuel calls rows)
  unfolding serve
  serve-Holds [] rows u = u
  serve-Holds ((now, c) ∷ calls) rows u =
      serve-Holds calls (committed p lower fuel (run_call p lower fuel now c rows) rows) (
        committed-Holds (run_call p lower fuel now c rows) rows u (run_call-Preserves now c rows u))

-- Whatever events come, scenarios are started, delays and waits end and requests are answered, in any
-- order, at any times and whether the calls succeed or fail. If it was so before, then after the calls
-- every delayed action is either PENDING, never tried and without a time of completion, or COMPLETED,
-- tried once and with one, and none is left PROCESSING; and every wait is either ACTIVE with neither a
-- time of its end nor an event, or RESOLVED with both, or TIMED_OUT with the time and no event.
pub serve-IsSettled :
    (p : Project) (lower : String → String) (fuel : ℕ) (calls : List (ℕ × Call)) (rows : Rows)
    → IsSettled rows
    → IsSettled (serve p lower fuel calls rows)
serve-IsSettled p lower fuel calls rows u =
    serve-Holds p (Settled nobody) (λ id. Settled (only id)) (Settled-Lifecycle p) lower fuel calls
      rows u
