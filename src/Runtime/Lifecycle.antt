-- ===== src/Runtime/Lifecycle.antt =====
-- What may be shown of the delayed actions and the waits through all calls of
-- apps/worker/src/automation/automation-runtime.service.ts: a property of them that every write to the two
-- tables keeps.
use manychat.Prelude.{ℕ, String, ◌&&◌, List, Option}
use manychat.Automation.Graph.{Node, Edge}
use manychat.Runtime.Rows.{
  DelayedAction, WaitState, Rows, Completion, exhausted, throws, returns, Action, continue,
  update_rows, is_pending_action, of_delay, of_wait, create_once,
}
use manychat.Runtime.Project.{Project}
use manychat.Runtime.Suspend.{new_delay, new_wait}
use manychat.Runtime.Service.{
  is_action, is_processing_action, take_action, complete_action, is_open_wait, time_out, resolve_by,
}

-- A property of the two tables
abbrev pub Property : Type 1
Property = List DelayedAction → List WaitState → Type 0

abbrev pub Holds : Property → Rows → Type 0
Holds J rows = J rows.delayed_actions rows.wait_states

-- What a call leaves, where it does not fail.
abbrev pub Leaves : Property → {A : Type 0} → Completion A → Type 0
Leaves J exhausted = Unit
Leaves J (throws e) = Unit
Leaves J (returns a rows) = Holds J rows

pub continue-Leaves :
    (J K : Property) {A B : Type 0} (c : Completion A) (f : A → Action B)
    → Leaves J c
    → ((a : A) (rows : Rows) → Holds J rows → Leaves K (f a rows))
    → Leaves K (continue c f)
continue-Leaves J K exhausted f h k = tt
continue-Leaves J K (throws e) f h k = tt
continue-Leaves J K (returns a rows) f h k = k a rows h

-- The rows that the nodes DELAY and WAIT_FOR_REPLY make keep the property.
pub record KeptByNodes (p : Project) (J : Property) : Type 0 where
  pub delays :
      (now : ℕ) (execution : String) (node : Node) (resume_from : Option String)
      (actions : List DelayedAction) (waits : List WaitState)
      → J actions waits
      → J
          (create_once
            (of_delay execution node.id)
            (new_delay p now execution node resume_from)
            actions)
          waits
  pub waits :
      (now : ℕ) (execution : String) (node : Node) (edges : List Edge)
      (actions : List DelayedAction) (waits : List WaitState)
      → J actions waits
      → J actions
          (create_once (of_wait execution node.id) (new_wait p now execution node edges) waits)

-- So do the writes that end a delay or a wait, where `H id` holds while a transaction resumes the
-- action `id`.
pub record Lifecycle (p : Project) (J : Property) (H : String → Property) : Type 0 where
  pub by_nodes : KeptByNodes p J
  pub by_nodes_held : (id : String) → KeptByNodes p (H id)
  pub taken :
      (id : String) (actions : List DelayedAction) (waits : List WaitState)
      → J actions waits
      → H id
          (update_rows (λ a. is_action id a && is_pending_action a.status) take_action actions)
          waits
  pub done :
      (id : String) (now : ℕ) (actions : List DelayedAction) (waits : List WaitState)
      → H id actions waits
      → J
          (update_rows
            (λ a. is_action id a && is_processing_action a.status)
            (complete_action now)
            actions)
          waits
  pub times_out :
      (id : String) (now : ℕ) (actions : List DelayedAction) (waits : List WaitState)
      → J actions waits
      → J actions (update_rows (is_open_wait id) (time_out now) waits)
  pub resolves :
      (id event : String) (now : ℕ) (actions : List DelayedAction) (waits : List WaitState)
      → J actions waits
      → J actions (update_rows (is_open_wait id) (resolve_by event now) waits)
