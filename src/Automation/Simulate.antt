-- ===== src/Automation/Simulate.antt =====
-- `simulateScenarioGraph` of packages/automation-core/src/index.ts, for a graph that the schema has
-- parsed.
pub mod Trace
pub mod Selected
pub mod Budget
use mathlib.Core.List.{foldl}
use manychat.Prelude.{
  ℕ, zero, suc, String, Bool, true, false, not, List, [], ◌∷◌, ◌++◌, Option, none, some, find,
  head?, ◌==◌, or_else, lookup, if◌then◌else◌,
}
use manychat.Automation.Graph.{
  NodeType, condition, wait_for_reply, delay, external_http_request, stop, Node, Edge, Graph,
}
use manychat.Automation.Outgoing.{push_edge, edges_in, nodes_by_id}
use manychat.Automation.Validate.{is_trigger}
use manychat.Automation.Branch.{
  HttpOutcome, success, failure, WaitOutcome, reply, timeout, SimulationInput, sort_by_priority,
  select_condition, condition_reason, Reason, wait_outcome_required, reply_simulated,
  timeout_simulated, delay_skipped_in_test, http_outcome_required, http_success_simulated,
  http_failure_simulated,
}

pub data StepResult : Type 0 where
  completed waiting would_execute : StepResult

pub record Step : Type 0 where
  pub node_id : String
  pub node_type : NodeType
  pub result : StepResult
  pub selected_output : Option String
  pub next_node_id : Option String
  pub reason_code : Option Reason

-- The end of a simulation: it throws, or returns `completed` and `steps`.
pub data Simulated : Type 0 where
  budget_exhausted : Simulated
  simulated : (completed : Bool) → (steps : List Step) → Simulated

-- What the body of the loop decides about a node.
pub record Choice : Type 0 where
  pub selected : Option Edge
  pub result : StepResult
  pub reason : Option Reason

abbrev pub wait_name : WaitOutcome → String
wait_name reply = "reply"
wait_name timeout = "timeout"

abbrev pub http_name : HttpOutcome → String
http_name success = "success"
http_name failure = "failure"

abbrev wait_reason : WaitOutcome → Reason
wait_reason reply = reply_simulated
wait_reason timeout = timeout_simulated

abbrev http_reason : HttpOutcome → Reason
http_reason success = http_success_simulated
http_reason failure = http_failure_simulated

unfoldable pub output_is : String → Edge → Bool
output_is name edge = edge.output == name

-- `edges.find((edge) => edge.output === 'default') ?? edges[0]`
unfoldable pub default_edge : List Edge → Option Edge
default_edge edges = or_else (find (output_is "default") edges) (head? edges)

module _ (input : SimulationInput) where
  abbrev wait_choice : Option WaitOutcome → List Edge → Choice
  wait_choice none edges = record {
    selected = none;
    result = waiting;
    reason = some wait_outcome_required;
  }
  wait_choice (some outcome) edges = record {
    selected = find (output_is (wait_name outcome)) edges;
    result = would_execute;
    reason = some (wait_reason outcome);
  }

  abbrev http_choice : Option HttpOutcome → List Edge → Choice
  http_choice none edges = record {
    selected = none;
    result = waiting;
    reason = some http_outcome_required;
  }
  http_choice (some outcome) edges = record {
    selected = find (output_is (http_name outcome)) edges;
    result = would_execute;
    reason = some (http_reason outcome);
  }

  -- The chain of `if`s on the node's type; `edges` are in order of priority.
  unfoldable pub choose : NodeType → Node → List Edge → Choice
  choose condition node edges = record {
    selected = select_condition input node edges;
    result = would_execute;
    reason = some (condition_reason input node edges);
  }
  choose wait_for_reply node edges = wait_choice input.wait_outcome edges
  choose external_http_request node edges = http_choice input.http_outcome edges
  choose delay node edges = record {
    selected = default_edge edges;
    result = would_execute;
    reason = some delay_skipped_in_test;
  }
  choose stop node edges = record { selected = none; result = completed; reason = none }
  choose _ node edges = record {
    selected = default_edge edges;
    result = would_execute;
    reason = none;
  }

-- `selected?.output ? { selectedOutput: selected.output } : {}`
abbrev non_empty : String → Option String
non_empty s = if s == "" then none else some s

abbrev output_of : Option Edge → Option String
output_of none = none
output_of (some edge) = non_empty edge.output

abbrev next_of : Option Edge → Option String
next_of none = none
next_of (some edge) = non_empty edge.to

abbrev pub step_of : Node → Choice → Step
step_of node choice = record {
  node_id = node.id;
  node_type = node.type;
  result = choice.result;
  selected_output = output_of choice.selected;
  next_node_id = next_of choice.selected;
  reason_code = choice.reason;
}

-- `if (result === 'WAITING') return { completed: false, steps }`, or on with the loop.
unfoldable pub proceed : StepResult → Simulated → Simulated → Simulated
proceed completed paused rest = rest
proceed waiting paused rest = paused
proceed would_execute paused rest = rest

module _ (graph : Graph) (input : SimulationInput) where
  -- `outgoing` here holds every edge, also one with an end that is no node.
  unfoldable pub all_outgoing : List (String × List Edge)
  unfolding push_edge
  all_outgoing = foldl (λ m (edge : Edge). push_edge edge.from edge m) [] graph.edges

  unfoldable pub choice_at : Node → Choice
  unfolding choose
  choice_at node = choose input node.type node (sort_by_priority (edges_in node.id all_outgoing))

  -- `selected ? nodes.get(selected.to) : undefined`
  unfoldable pub next_node : Option Edge → Option Node
  next_node none = none
  next_node (some edge) = lookup edge.to (nodes_by_id graph.nodes)

  -- The `while` loop, with the value of `budget` before its test, and what follows it.
  unfoldable pub loop : ℕ → Option Node → List Step → Simulated
  unfolding proceed
  loop zero current steps = budget_exhausted
  loop (suc budget) none steps = simulated true steps
  loop (suc budget) (some node) steps =
      let choice = choice_at node in
      let steps' = steps ++ step_of node choice ∷ [] in
      let rest = loop budget (next_node choice.selected) steps' in
      proceed choice.result (simulated false steps') rest

  unfoldable pub simulate_scenario_graph : Simulated
  unfolding loop
  simulate_scenario_graph = loop 100 (find is_trigger graph.nodes) []
