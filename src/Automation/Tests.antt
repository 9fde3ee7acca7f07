-- ===== src/Automation/Tests.antt =====
-- The theorems of the automation model at inputs that meet their hypotheses.
use manychat.Prelude.{
  String, ◌≡◌, ◌≢◌, ◌↔◌, refl, true, List, [], ◌∷◌, some, arith, has, any, false,
}
use manychat.Value.{undefined, obj}
use manychat.Automation.Graph.{exists}
use manychat.Automation.Condition.{evaluate_condition}
use manychat.Automation.Field.{automation_value_for}
use manychat.Automation.Field.Laws.{contact_inherited}
use manychat.Automation.Issue.{Issue}
use manychat.Automation.Outgoing.{targets, is_guarded}
use manychat.Automation.Cycle
use manychat.Automation.Cycle.{UnguardedCycle}
use manychat.Automation.Validate.{reachable, validate_scenario_graph}
use manychat.Automation.Validate.Search.{Reached, reachable-Reached, has_unguarded_cycle_sound}
use manychat.Automation.Validate.Accepted.{
  Accepted, Accepted_of_validate, validate_scenario_graph-total,
}
use manychat.Automation.Validate.Cycles.{accepted_acyclic, missed_cycle}
use manychat.Automation.Branch.{edge_matches}
use manychat.Automation.Branch.Laws.{goes_first, select_condition-lowest}
use manychat.Automation.Simulate.{budget_exhausted, simulate_scenario_graph}
use manychat.Automation.Simulate.Trace.{simulate_scenario_graph-Runs, within_budget}
use manychat.Automation.Simulate.Budget.{simulate-ne-exhausted}
use manychat.Automation.Samples.{
  small, looping, accept_all, no_input, low, high, other, hi, choice_node, vip, missed_targets,
  missed_guarded, small_steps, small_accepted, plain_small, low_selected, own_missing, small_run,
  found-looping,
}

Accepted_of_validate_example : Accepted accept_all small
Accepted_of_validate_example = Accepted_of_validate accept_all small small_accepted

reachable-Reached_example :
    (seen : List String) × (reachable small ≡ some seen)
    × ((id : String) → (has id seen ≡ true) ↔ Reached small id)
reachable-Reached_example = reachable-Reached small

simulate-ne-exhausted_example : simulate_scenario_graph small hi ≢ budget_exhausted
simulate-ne-exhausted_example =
    simulate-ne-exhausted accept_all small hi small_accepted plain_small (omega arith)

simulate_scenario_graph-Runs_example :
    simulate_scenario_graph small no_input ≡ within_budget small no_input true 2 small_steps
simulate_scenario_graph-Runs_example =
    simulate_scenario_graph-Runs small no_input true 2 small_steps small_run

accepted_acyclic_example : ¬ UnguardedCycle (targets small) (is_guarded small)
accepted_acyclic_example = accepted_acyclic accept_all small small_accepted plain_small

has_unguarded_cycle_sound_example : UnguardedCycle (targets looping) (is_guarded looping)
has_unguarded_cycle_sound_example = has_unguarded_cycle_sound looping found-looping

missed_cycle_example :
    UnguardedCycle missed_targets missed_guarded
    × (Cycle.visit_each
          (Cycle.visit missed_targets missed_guarded 4)
          ("v" ∷ "u" ∷ "w" ∷ [])
          Cycle.start
        ≡ Cycle.done (record { visiting = []; visited = "v" ∷ "w" ∷ "u" ∷ [] }))
missed_cycle_example =
    missed_cycle missed_targets missed_guarded "u" "v" "w" 0 refl refl refl refl refl refl refl refl
      refl

validate_scenario_graph-total_example :
    (issues : List Issue) × (validate_scenario_graph accept_all looping ≡ some issues)
validate_scenario_graph-total_example = validate_scenario_graph-total accept_all looping

select_condition-lowest_example :
    (edge_matches hi choice_node low ≡ true)
    × (any (goes_first hi choice_node low) (high ∷ other ∷ low ∷ []) ≡ false)
select_condition-lowest_example =
    select_condition-lowest hi choice_node (high ∷ other ∷ low ∷ []) low low_selected refl

contact_inherited_example :
    evaluate_condition exists
      (automation_value_for (some "contact.toString") undefined undefined (obj vip) undefined)
      undefined
    ≡ true
contact_inherited_example =
    contact_inherited "contact.toString" "toString" undefined undefined undefined undefined vip refl
      refl refl own_missing
