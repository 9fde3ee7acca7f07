-- ===== src/Runtime/Settled.antt =====
-- The life of a delayed action and of a wait in apps/worker/src/automation/automation-runtime.service.ts:
-- what the columns of a row may be in each of its statuses.
use manychat.Prelude.{
  ℕ, String, Bool, true, false, not, ◌&&◌, List, [], ◌∷◌, all, any, is_some, nat_eq, nat_eq_iff,
  ◌==◌, ◌≡◌, refl, inl, inr, arith, Bool-cases,
}
use manychat.Runtime.Rows.{
  DelayedAction, DelayedActionStatus, pending, processing, completed, WaitState, WaitStateStatus,
  active, resolved, timed_out, Rows, update_rows, is_pending_action, create_once,
}
use manychat.Runtime.Project.{Project}
use manychat.Runtime.Lifecycle.{Holds, KeptByNodes, Lifecycle}
use manychat.Runtime.Service.{
  is_action, is_processing_action, take_action, complete_action, is_open_wait, time_out, resolve_by,
}

-- By the status, the attempts and whether the time of completion is set. A row that is being resumed is
-- seen only by the transaction that holds it.
abbrev pub action_fits : Bool → DelayedActionStatus → ℕ → Bool → Bool
action_fits held pending attempts ended = nat_eq attempts 0 && not ended
action_fits held processing attempts ended = held && nat_eq attempts 1 && not ended
action_fits held completed attempts ended = nat_eq attempts 1 && ended
action_fits held _ attempts ended = false

abbrev pub action_settled : (String → Bool) → DelayedAction → Bool
action_settled held a = action_fits (held a.id) a.status a.attempts (is_some a.completed_at)

-- By the status, and whether the time of its end and the event that ended it are set.
abbrev pub wait_fits : WaitStateStatus → Bool → Bool → Bool
wait_fits active ended by_event = not ended && not by_event
wait_fits resolved ended by_event = ended && by_event
wait_fits timed_out ended by_event = ended && not by_event
wait_fits _ ended by_event = false

abbrev pub wait_settled : WaitState → Bool
wait_settled w = wait_fits w.status (is_some w.resolved_at) (is_some w.resolved_by_event_id)

pub record Settled (held : String → Bool) (delayed_actions : List DelayedAction)
    (wait_states : List WaitState) : Type 0 where
  pub delays : all (action_settled held) delayed_actions ≡ true
  pub waits : all wait_settled wait_states ≡ true

abbrev pub nobody : String → Bool
nobody id = false

abbrev pub only : String → String → Bool
only id other = other == id

-- No transaction is under way: every delayed action is pending and has never been tried, or it has been
-- tried once and is completed; every wait is active and open, or resolved by an event, or timed out.
abbrev pub IsSettled : Rows → Type 0
IsSettled rows = Holds (Settled nobody) rows

all-create :
    {A : Type 0} (test same_key : A → Bool) (row : A) (rows : List A)
    → test row ≡ true
    → all test rows ≡ true
    → all test (create_once same_key row rows) ≡ true
unfolding create_once
all-create test same_key row rows fits h = elim (Bool-cases (any same_key rows)) [
  | inl there ↦ rw there h
  | inr new ↦ rw (new, fits) h
]

Settled-KeptByNodes : (p : Project) (held : String → Bool) → KeptByNodes p (Settled held)
Settled-KeptByNodes p held = record {
  delays = λ now execution node resume_from actions waits h. record {
    delays = all-create (action_settled held) _ _ actions refl h.delays;
    waits = h.waits;
  };
  waits = λ now execution node edges actions waits h. record {
    delays = h.delays;
    waits = all-create wait_settled _ _ waits refl h.waits;
  };
}

-- A write that takes the rows of one predicate to rows of another.
all-update :
    {A : Type 0} (before after test : A → Bool) (change : A → A) (rows : List A)
    → ((row : A) → test row ≡ true → before row ≡ true → after (change row) ≡ true)
    → ((row : A) → test row ≡ false → before row ≡ true → after row ≡ true)
    → all before rows ≡ true
    → all after (update_rows test change rows) ≡ true
unfolding update_rows
all-update before after test change [] written left h = refl
all-update before after test change (row ∷ rows) written left h =
    let later = all-update before after test change rows written left (ground (arith, h)) in
    let fits : before row ≡ true = ground (arith, h) in
    elim (Bool-cases (test row)) [
      | inl hit ↦ rw (hit, written row hit fits) later
      | inr miss ↦ rw (miss, left row miss fits) later
    ]

-- The two writes of a resumption, and the two that end a wait.
taken-Settled :
    (id : String) (actions : List DelayedAction)
    → all (action_settled nobody) actions ≡ true
    → all
        (action_settled (only id))
        (update_rows (λ a. is_action id a && is_pending_action a.status) take_action actions)
      ≡ true
taken-Settled id actions h =
    all-update (action_settled nobody) (action_settled (only id)) _ take_action actions
      (λ a hit fits. ground (arith, nat_eq_iff a.attempts 0)) (λ a miss fits. ground arith) h

done-Settled :
    (id : String) (now : ℕ) (actions : List DelayedAction)
    → all (action_settled (only id)) actions ≡ true
    → all (action_settled nobody) (
        update_rows
          (λ a. is_action id a && is_processing_action a.status)
          (complete_action now)
          actions)
      ≡ true
done-Settled id now actions h =
    all-update (action_settled (only id)) (action_settled nobody) _ (complete_action now) actions
      (λ a hit fits. ground arith) (λ a miss fits. ground arith) h

timed_out-Settled :
    (id : String) (now : ℕ) (waits : List WaitState)
    → all wait_settled waits ≡ true
    → all wait_settled (update_rows (is_open_wait id) (time_out now) waits) ≡ true
timed_out-Settled id now waits h =
    all-update wait_settled wait_settled _ (time_out now) waits (λ w hit fits. ground arith)
      (λ w miss fits. fits) h

resolved-Settled :
    (id event : String) (now : ℕ) (waits : List WaitState)
    → all wait_settled waits ≡ true
    → all wait_settled (update_rows (is_open_wait id) (resolve_by event now) waits) ≡ true
resolved-Settled id event now waits h =
    all-update wait_settled wait_settled _ (resolve_by event now) waits (λ w hit fits. ground arith)
      (λ w miss fits. fits) h

pub Settled-Lifecycle : (p : Project) → Lifecycle p (Settled nobody) (λ id. Settled (only id))
Settled-Lifecycle p = record {
  by_nodes = Settled-KeptByNodes p nobody;
  by_nodes_held = λ id. Settled-KeptByNodes p (only id);
  taken =
      λ id actions waits h. record { delays = taken-Settled id actions h.delays; waits = h.waits };
  done = λ id now actions waits h. record {
    delays = done-Settled id now actions h.delays;
    waits = h.waits;
  };
  times_out = λ id now actions waits h. record {
    delays = h.delays;
    waits = timed_out-Settled id now waits h.waits;
  };
  resolves = λ id event now actions waits h. record {
    delays = h.delays;
    waits = resolved-Settled id event now waits h.waits;
  };
}
