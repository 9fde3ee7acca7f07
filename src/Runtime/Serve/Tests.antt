-- ===== src/Runtime/Serve/Tests.antt =====
-- Sequences of calls of apps/worker/src/automation/automation-runtime.service.ts, and the theorems at
-- them.
use manychat.Prelude.{
  ℕ, String, true, List, [], ◌∷◌, some, find, insert, ◌==◌, if◌then◌else◌, lookup, ◌≡◌, refl,
}
use manychat.Value.{undefined, null, str, obj, end, field, own, member, with_member}
use manychat.Automation.Graph.{NodeType, Graph}
use manychat.Automation.Samples.{node_at, edge_to, delayed}
use manychat.Runtime.Rows.{DelayedAction, Rows, returns, update_rows, create_once}
use manychat.Runtime.Project.{Project, CustomFieldType, is_custom_field_value_valid}
use manychat.Runtime.Service.{
  resume_delayed_action, trigger_event, trigger_each, is_action, is_wait, take_action,
  complete_action, timeout_wait,
}
use manychat.Automation.Simulate.{default_edge, output_is}
use manychat.Automation.Outgoing.{push_edge, edges_in, nodes_by_id}
use manychat.Runtime.Run.{
  run_loop, run_node, starting_node, resume_execution, execute_graph, node_after, edges_from,
  resume_parent_if_needed,
}
use manychat.Runtime.Effects.{apply_tag, apply_set_field}
use manychat.Runtime.Node.{apply_node, upsert_execution}
use manychat.Runtime.Settled.{IsSettled}
use manychat.Runtime.Finished.{Unmade, resumed_action-stays, ended_wait-stays}
use manychat.Runtime.Serve.{
  Call, event_triggers, event_comes, wait_ends, delay_ends, serve, serve-IsSettled,
}
use manychat.Runtime.Samples.{
  empty_rows, project, quiet_rows, rows_of, tag_action, tagging, timed_wait, waiting_rows,
}

empty-IsSettled : IsSettled empty_rows
empty-IsSettled = record { delays = refl; waits = refl }

serve-IsSettled_example : IsSettled (
    serve
      (project delayed)
      (λ s. s)
      1
      ((5, event_triggers "ev") ∷ (70000, delay_ends "d") ∷ [])
      empty_rows)
serve-IsSettled_example =
    serve-IsSettled (project delayed) (λ s. s) 1
      ((5, event_triggers "ev") ∷ (70000, delay_ends "d") ∷ []) empty_rows empty-IsSettled

-- After the delay a tag is added that is there: the execution completes.
abbrev tagged_project : Project
tagged_project = record (project tagging) { has_tag = λ tag. true; new_row_id = λ e n. "row" }

abbrev later_action : DelayedAction
later_action = record tag_action { id = "delay1" }

abbrev later_rows : Rows
later_rows = record waiting_rows { delayed_actions = later_action ∷ [] }

abbrev resumed_rows : Rows
resumed_rows = rows_of (resume_delayed_action tagged_project (λ s. s) 1 70000 "delay1" later_rows)

resumed_run :
    resume_delayed_action tagged_project (λ s. s) 1 70000 "delay1" later_rows
    ≡ returns tt resumed_rows
unfolding resume_delayed_action resume_execution execute_graph run_loop run_node apply_node
    apply_tag starting_node node_after edges_from resume_parent_if_needed lookup insert nodes_by_id
    push_edge edges_in default_edge output_is member own update_rows create_once
resumed_run = refl

Unmade-delay : Unmade tagged_project "delay1"
Unmade-delay execution node = refl

abbrev end_rows : Rows
end_rows = serve tagged_project (λ s. s) 1 ((80000, event_triggers "ev") ∷ []) resumed_rows

resumed_action-stays_example :
    (find (is_action "delay1") end_rows.delayed_actions
      ≡ some (complete_action 70000 (take_action later_action)))
    × (resume_delayed_action tagged_project (λ s. s) 1 90000 "delay1" end_rows
        ≡ returns tt end_rows)
resumed_action-stays_example =
    resumed_action-stays tagged_project (λ s. s) 1 70000 later_action later_rows resumed_rows
      Unmade-delay refl refl resumed_run ((80000, event_triggers "ev") ∷ []) 1 90000

abbrev calls_later : List (ℕ × Call)
calls_later = (80000, event_comes "ev") ∷ (80001, wait_ends "w") ∷ []

Unmade-wait : Unmade tagged_project "w"
Unmade-wait execution node = refl

ended_wait-stays_example :
    let end = serve tagged_project (λ s. s) 1 calls_later quiet_rows in
    (find (is_wait "w") end.wait_states ≡ some timed_wait)
    × (timeout_wait tagged_project (λ s. s) 1 90000 "w" end ≡ returns tt end)
ended_wait-stays_example =
    ended_wait-stays tagged_project (λ s. s) 1 timed_wait quiet_rows Unmade-wait refl refl
      calls_later 90000

-- Two scenarios that an event starts, each of which sets a custom field.
abbrev setting : String → Graph
setting key = record {
  edges = edge_to "t" "default" "f" ∷ [];
  nodes =
      node_at NodeType.incoming_message "t" end
      ∷ node_at NodeType.set_custom_field "f" (field "key" (str key) (field "value" null end))
      ∷ [];
}

abbrev two_scenarios : Project
two_scenarios = record (project delayed) {
  published_scenarios = ("s", "v") ∷ ("s'", "v'") ∷ [];
  definition = λ version. some (some (setting (if version == "v" then "a" else "b")));
  field_definition =
      λ key. some (record { id = key; type = CustomFieldType.text; options = undefined });
  new_execution_id = λ scenario key. scenario;
}

-- The second goes on from the context that the first has changed: both fields stand.
shared_context :
    (rows_of (trigger_event two_scenarios (λ s. s) 1 5 "ev" empty_rows)).contact.custom_fields
    ≡ obj (field "a" null (field "b" null end))
unfolding trigger_event trigger_each upsert_execution execute_graph run_loop run_node apply_node
    apply_set_field is_custom_field_value_valid with_member starting_node node_after edges_from
    resume_parent_if_needed lookup insert nodes_by_id push_edge edges_in default_edge output_is
    member own update_rows create_once
shared_context = refl
