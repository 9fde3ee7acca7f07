-- ===== src/Runtime/Finished.antt =====
-- A delayed action or a wait of apps/worker/src/automation/automation-runtime.service.ts that is over:
-- whatever calls come later, it stays as it is and resumes nothing.
use manychat.Prelude.{
  ℕ, String, Bool, true, false, ◌&&◌, List, [], ◌∷◌, some, any, find, ◌==◌, if◌then◌else◌, ◌≡◌,
  none, eq_refl, refl, inl, inr, arith, Bool-cases, eq_of_some-eq-some,
}
use manychat.Runtime.Rows.{
  DelayedAction, WaitState, Rows, returns, update_rows, is_pending_action, is_active_wait,
  create_once,
}
use manychat.Runtime.Project.{Project}
use manychat.Runtime.Service.{
  is_action, is_wait, is_processing_action, take_action, complete_action, time_out, resolve_by,
  write_actions, resume_delayed_action, timeout_wait,
}
use manychat.Runtime.Lifecycle.{Property, Holds, Leaves, continue-Leaves, KeptByNodes, Lifecycle}
use manychat.Runtime.Calls.{resume_from-Preserves, or_failed-Leaves}
use manychat.Runtime.Serve.{Call, serve, serve-Holds}

-- A new row with another identifier does not hide the row that is found.
find-create :
    {A : Type 0} (test same_key : A → Bool) (row : A) (rows : List A) (x : A)
    → test row ≡ false
    → find test rows ≡ some x
    → find test (create_once same_key row rows) ≡ some x
unfolding create_once
find-create test same_key row rows x other h = elim (Bool-cases (any same_key rows)) [
  | inl there ↦ rw there h
  | inr new ↦ rw (new, other) h
]

find-update :
    {A : Type 0} (test written : A → Bool) (change : A → A) (rows : List A) (x : A)
    → ((row : A) → test (change row) ≡ test row)
    → find test rows ≡ some x
    → find test (update_rows written change rows) ≡ some (if written x then change x else x)
unfolding update_rows
find-update test written change [] x kept h = cc
find-update test written change (row ∷ rows) x kept h = elim (Bool-cases (test row)) [
  | inl hit ↦
      let same : row ≡ x = eq_of_some-eq-some (rw hit at h) in
      elim (Bool-cases (written row)) [
        | inl w ↦ rw (w, kept row, hit, ← same, w) refl
        | inr n ↦ rw (n, hit, ← same, n) refl
      ]
  | inr miss ↦
      let later = find-update test written change rows x kept (rw miss at h) in
      elim (Bool-cases (written row)) [
        | inl w ↦ rw (w, kept row, miss) later
        | inr n ↦ rw (n, miss) later
      ]
]

-- The action, or the wait, is the one that is found by its identifier.
abbrev ActionIs : DelayedAction → Property
ActionIs a actions waits = find (is_action a.id) actions ≡ some a

abbrev WaitIs : WaitState → Property
WaitIs w actions waits = find (is_wait w.id) waits ≡ some w

-- No row is made with the identifier.
abbrev pub Unmade : Project → String → Type 0
Unmade p id = (execution node : String) → p.new_row_id execution node == id ≡ false

module _ (p : Project) where
  ActionIs-KeptByNodes : (a : DelayedAction) → Unmade p a.id → KeptByNodes p (ActionIs a)
  ActionIs-KeptByNodes a unmade = record {
    delays = λ now execution node resume_from actions waits h.
        find-create (is_action a.id) _ _ actions a (unmade execution node.id) h;
    waits = λ now execution node edges actions waits h. h;
  }

  WaitIs-KeptByNodes : (w : WaitState) → Unmade p w.id → KeptByNodes p (WaitIs w)
  WaitIs-KeptByNodes w unmade = record {
    delays = λ now execution node resume_from actions waits h. h;
    waits = λ now execution node edges actions waits h.
        find-create (is_wait w.id) _ _ waits w (unmade execution node.id) h;
  }

  completed-Lifecycle :
      (a : DelayedAction)
      → Unmade p a.id
      → is_pending_action a.status ≡ false
      → is_processing_action a.status ≡ false
      → Lifecycle p (ActionIs a) (λ id. ActionIs a)
  completed-Lifecycle a unmade idle over = record {
    by_nodes = ActionIs-KeptByNodes a unmade;
    by_nodes_held = λ id. ActionIs-KeptByNodes a unmade;
    taken = λ id actions waits h.
        rw (find-update (is_action a.id) _ take_action actions a (λ r. refl) h)
          (ground (arith, idle));
    done = λ id now actions waits h.
        rw (find-update (is_action a.id) _ (complete_action now) actions a (λ r. refl) h)
          (ground (arith, over));
    times_out = λ id now actions waits h. h;
    resolves = λ id event now actions waits h. h;
  }

  ended-Lifecycle :
      (w : WaitState)
      → Unmade p w.id
      → is_active_wait w.status ≡ false
      → Lifecycle p (WaitIs w) (λ id. WaitIs w)
  ended-Lifecycle w unmade over = record {
    by_nodes = WaitIs-KeptByNodes w unmade;
    by_nodes_held = λ id. WaitIs-KeptByNodes w unmade;
    taken = λ id actions waits h. h;
    done = λ id now actions waits h. h;
    times_out = λ id now actions waits h.
        rw (find-update (is_wait w.id) _ (time_out now) waits w (λ r. refl) h)
          (ground (arith, over));
    resolves = λ id event now actions waits h.
        rw (find-update (is_wait w.id) _ (resolve_by event now) waits w (λ r. refl) h)
          (ground (arith, over));
  }

module _ (p : Project) (lower : String → String) (fuel now : ℕ) where
  -- A resumption that succeeds leaves its action completed.
  resume-completes :
      (a : DelayedAction) (rows : Rows)
      → Unmade p a.id
      → Holds (ActionIs a) rows
      → is_pending_action a.status ≡ true
      → Leaves
          (ActionIs (complete_action now (take_action a)))
          (resume_delayed_action p lower fuel now a.id rows)
  unfolding resume_delayed_action
  resume-completes a rows unmade found idle =
      let taken : find (is_action a.id) (
            update_rows (λ b. is_action a.id b && is_pending_action b.status) take_action
              rows.delayed_actions)
          ≡ some (take_action a) =
        rw (find-update (is_action a.id) _ take_action rows.delayed_actions a (λ r. refl) found)
          (rw (eq_refl a.id, idle) refl) in
      let resumed =
        resume_from-Preserves p lower fuel now (ActionIs (take_action a))
          (ActionIs-KeptByNodes p (take_action a) unmade) a.scenario_execution_id a.resume_node_id
          none _ taken in
      rw (found, idle)
        (or_failed-Leaves (ActionIs (complete_action now (take_action a))) _ (
          continue-Leaves (ActionIs (take_action a))
            (ActionIs (complete_action now (take_action a))) _
            (λ x.
              write_actions (λ b. is_action a.id b && is_processing_action b.status)
                (complete_action now))
            resumed
            (λ x after v.
              rw
                (find-update (is_action a.id) _ (complete_action now) after.delayed_actions
                  (take_action a) (λ r. refl) v)
                (rw (eq_refl a.id) refl))))

  -- A pending delayed action is resumed once. When a resumption of it has succeeded, then whatever calls
  -- follow, at any times and in any order: the action stays completed as the resumption left it, with one
  -- attempt more than before, and resuming it again succeeds and changes no row at all. No new row is
  -- made with the action's identifier.
  pub resumed_action-stays :
      (a : DelayedAction) (rows after : Rows)
      → Unmade p a.id
      → find (is_action a.id) rows.delayed_actions ≡ some a
      → is_pending_action a.status ≡ true
      → resume_delayed_action p lower fuel now a.id rows ≡ returns tt after
      → (calls : List (ℕ × Call)) (later_fuel later : ℕ)
      → let end = serve p lower later_fuel calls after in
        (find (is_action a.id) end.delayed_actions ≡ some (complete_action now (take_action a)))
        × (resume_delayed_action p lower later_fuel later a.id end ≡ returns tt end)
  unfolding resume_delayed_action
  resumed_action-stays a rows after unmade found idle succeeds calls later_fuel later =
      let over = complete_action now (take_action a) in
      let completed : Holds (ActionIs over) after =
        rw succeeds at (resume-completes a rows unmade found idle) in
      let stays =
        serve-Holds p (ActionIs over) (λ id. ActionIs over)
          (completed-Lifecycle p over unmade refl refl) lower later_fuel calls after completed in
      (stays, rw stays refl)

module _ (p : Project) (lower : String → String) (fuel : ℕ) where
  -- A wait that is not active, since an event has resolved it or its time has run out, stays as it is
  -- whatever calls follow, at any times and in any order, and timing it out after them succeeds and
  -- changes no row at all. No new row is made with the wait's identifier.
  pub ended_wait-stays :
      (w : WaitState) (rows : Rows)
      → Unmade p w.id
      → find (is_wait w.id) rows.wait_states ≡ some w
      → is_active_wait w.status ≡ false
      → (calls : List (ℕ × Call)) (later : ℕ)
      → let end = serve p lower fuel calls rows in
        (find (is_wait w.id) end.wait_states ≡ some w)
        × (timeout_wait p lower fuel later w.id end ≡ returns tt end)
  unfolding timeout_wait
  ended_wait-stays w rows unmade found over calls later =
      let stays =
        serve-Holds p (WaitIs w) (λ id. WaitIs w) (ended-Lifecycle p w unmade over) lower fuel calls
          rows found in
      (stays, rw stays (ground (arith, over)))
