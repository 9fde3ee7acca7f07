-- ===== src/Runtime/Tests.antt =====
-- Runs of apps/worker/src/automation/automation-runtime.service.ts on a small scenario, and the theorems
-- at them.
use manychat.Prelude.{
  ℕ, String, true, List, [], ◌∷◌, Option, none, some, map, insert, lookup, ◌≡◌, refl, arith,
}
use manychat.Value.{
  undefined, null, str, obj, Fields, end, field, own, member, with_member, is_positive_integer,
  whole, one,
}
use manychat.Automation.Graph.{NodeType, Edge}
use manychat.Automation.Samples.{node_at, edge_to, minute, delayed}
use manychat.Runtime.Rows.{
  DelayedAction, Rows, Completion, exhausted, throws, returns, update_rows, create_once,
}
use manychat.Runtime.Project.{RuntimeContext}
use manychat.Runtime.Merge.{deep_merge, merged_member, own-deep_merge}
use manychat.Runtime.Service.{resume_delayed_action, trigger_event, trigger_each}
use manychat.Automation.Simulate.{default_edge, output_is}
use manychat.Automation.Outgoing.{push_edge, edges_in, nodes_by_id}
use manychat.Runtime.Run.{
  run_loop, run_node, starting_node, resume_execution, execute_graph, node_after, edges_from,
}
use manychat.Runtime.Effects.{apply_tag}
use manychat.Runtime.Suspend.{apply_delay, seconds_of}
use manychat.Runtime.Condition.{apply_condition, branch_matches, matched_branch, runtime_value_for}
use manychat.Runtime.Agree.{names_field, apply_condition-simulated}
use manychat.Automation.Branch.{
  SimulationInput, select_condition, sort_by_priority, has_legacy_node_condition,
}
use manychat.Automation.Condition.{evaluate_condition}
use manychat.Automation.Field.{automation_value_for}
use manychat.Automation.Graph.{Operator}
use manychat.Runtime.Node.{apply_node, upsert_execution}
use manychat.Runtime.Again.{falls_asleep, Revisited-is_asleep, delay_again}
use manychat.Runtime.Restart.{EndsInDelay, last_delay-is_asleep}
use manychat.Runtime.Starved.{IsPoisoned, scans, poisoned-starves}
use manychat.Runtime.Samples.{
  empty_rows, project, started_execution, tag_action, tagging, used_rows, waiting_action,
  waiting_rows,
}

minute-positive : is_positive_integer (member "delaySeconds" minute) ≡ true
unfolding is_positive_integer member own whole one
minute-positive = refl

minute-follows :
    node_after delayed
      (default_edge (edges_from delayed (node_at NodeType.incoming_message "t" end)))
    ≡ some (node_at NodeType.delay "d" minute)
unfolding node_after default_edge edges_from output_is lookup insert push_edge edges_in nodes_by_id
minute-follows = refl

delayed-EndsInDelay : EndsInDelay (project delayed) waiting_action waiting_rows
unfolding member
delayed-EndsInDelay = record {
  found = refl;
  pending = refl;
  execution = started_execution;
  known = refl;
  only = refl;
  no_wait = refl;
  alive = refl;
  payload = obj end;
  event = refl;
  graph = delayed;
  definition = refl;
  trigger = node_at NodeType.incoming_message "t" end;
  starts = refl;
  trigger_type = refl;
  last = node_at NodeType.delay "d" minute;
  follows = minute-follows;
  last_type = refl;
  seconds = minute-positive;
  of_last = refl;
  goes_nowhere = refl;
}

last_delay-is_asleep_example :
    falls_asleep delayed-EndsInDelay.execution.id
      (resume_delayed_action (project delayed) (λ s. s) 1 70000 "d" waiting_rows)
    ≡ true
last_delay-is_asleep_example =
    last_delay-is_asleep (project delayed) (λ s. s) 0 70000 waiting_action waiting_rows
      delayed-EndsInDelay

abbrev plain_context : RuntimeContext
plain_context = record {
  normalized_event_id = "ev";
  contact_variables = end;
  custom_fields = obj end;
  event_payload = obj end;
  variables = obj end;
  subflow_depth = 0;
}

Revisited-is_asleep_example :
    falls_asleep "e" (
      run_loop
        (project delayed)
        70000
        (λ graph execution context start rows. exhausted)
        99
        delayed
        "e"
        (some (node_at NodeType.delay "d" minute))
        plain_context
        used_rows)
    ≡ true
Revisited-is_asleep_example =
    Revisited-is_asleep (project delayed) 70000 (λ graph execution context start rows. exhausted) 98
      delayed "e" (node_at NodeType.delay "d" minute) plain_context used_rows
      (delay_again refl minute-positive refl) refl refl

abbrev counted : Fields
counted = field "a" (obj (field "n" null end)) (field "b" null end)

abbrev mapped : Fields
mapped = field "a" (obj (field "m" (str "x") end)) (field "c" null end)

own-deep_merge_example :
    own "a" (deep_merge counted mapped) ≡ merged_member (own "a" counted) (own "a" mapped)
own-deep_merge_example = own-deep_merge "a" counted mapped refl refl

-- Both objects stand under `a`, and their members are joined.
joined : own "a" (deep_merge counted mapped) ≡ some (obj (field "n" null (field "m" (str "x") end)))
unfolding deep_merge own with_member member
joined = refl

abbrev tag_rows : Rows
tag_rows = record waiting_rows { delayed_actions = tag_action ∷ [] }

tag-fails :
    (now : ℕ)
    → resume_delayed_action (project tagging) (λ s. s) 1 now "d" tag_rows
      ≡ throws "automation_delay_resume_failed"
unfolding resume_delayed_action resume_execution execute_graph run_loop run_node apply_node
    apply_tag starting_node lookup insert nodes_by_id member own update_rows create_once
tag-fails now = refl

tagging-IsPoisoned : IsPoisoned (project tagging) (λ s. s) 1 9 tag_action tag_rows
tagging-IsPoisoned = record { found = refl; pending = refl; behind = refl; fails = tag-fails }

poisoned-starves_example :
    scans (project tagging) (λ s. s) 1 9 (60010 ∷ 60020 ∷ []) tag_rows ≡ tag_rows
poisoned-starves_example =
    poisoned-starves (project tagging) (λ s. s) 1 9 (60010 ∷ 60020 ∷ []) tag_action tag_rows
      tagging-IsPoisoned (omega arith, (omega arith, tt))

-- The event starts the scenario, which waits at its delay; the check of a graph accepts the scenario.
abbrev after_trigger : Completion (Unit {0}) → Option (List (Option String × Option String))
after_trigger (returns u rows) =
    some (map (λ (a : DelayedAction). (some a.node_id, a.resume_node_id)) rows.delayed_actions)
after_trigger _ = none

trigger_run :
    after_trigger (trigger_event (project delayed) (λ s. s) 1 5 "ev" empty_rows)
    ≡ some ((some "d", none) ∷ [])
unfolding trigger_event trigger_each upsert_execution execute_graph run_loop run_node apply_node
    apply_delay starting_node node_after edges_from lookup insert nodes_by_id push_edge edges_in
    default_edge output_is member own update_rows create_once is_positive_integer whole one
    seconds_of
trigger_run = refl

abbrev vip_edge : Edge
vip_edge = record (edge_to "c" "yes" "x") {
  condition =
      some (record { field = "contact.email"; operator = Operator.exists; value = undefined });
}

abbrev vip_edges : List Edge
vip_edges = vip_edge ∷ edge_to "c" "no" "y" ∷ []

abbrev simulated_contact : SimulationInput
simulated_contact = record {
  contact = obj end;
  custom_fields = obj end;
  event = obj end;
  http_outcome = none;
  wait_outcome = none;
}

no_config_field : names_field (member "field" end) ≡ true
unfolding member own
no_config_field = refl

abbrev nameless : Fields
nameless = field "field" (str "") (field "operator" (str "not_exists") end)

apply_condition-simulated_example :
    (apply_condition plain_context (node_at NodeType.condition "c" end) vip_edges).next
    ≡ select_condition simulated_contact
        (node_at NodeType.condition "c" end)
        (sort_by_priority vip_edges)
apply_condition-simulated_example =
    apply_condition-simulated simulated_contact plain_context
      (record { same_event = refl; same_fields = refl; same_contact = refl; no_variables = refl })
      (node_at NodeType.condition "c" end) vip_edges no_config_field (refl, (refl, tt))

-- The rule without a field name, which the simulation never matches.
nameless_rule :
    (apply_condition plain_context
      (node_at NodeType.condition "c" nameless)
      (edge_to "c" "yes" "x" ∷ [])).next
    ≡ some (edge_to "c" "yes" "x")
unfolding apply_condition branch_matches matched_branch runtime_value_for automation_value_for
    evaluate_condition member own sort_by_priority has_legacy_node_condition
nameless_rule = refl
