-- ===== src/Automation/Samples.antt =====
-- Small scenarios and runs of the automation model on them.
use manychat.Prelude.{
  ℕ, String, ◌≡◌, refl, Bool, true, false, List, [], ◌∷◌, Option, none, some, All, ◌==◌, split,
  if◌then◌else◌, lookup, insert, includes,
}
use manychat.Prelude.Int.{pos, negsuc}
use manychat.Value.{
  Value, undefined, str, obj, Fields, end, field, is_non_empty_string, strict_eq, member, own,
  whole, is_positive_integer, one,
}
use manychat.Automation.Graph.{NodeType, Node, Edge, Graph, Rule, equals}
use manychat.Automation.Condition.{evaluate_condition, evaluate_condition_group}
use manychat.Automation.Field.{value_at_path, automation_value_for, record_of, is_dangerous}
use manychat.Automation.Field.Laws.{Leads, here, into}
use manychat.Automation.Reply.{
  Criteria, any_reply, TextOperator, is_supported, matches_wait_for_reply_criteria,
}
use manychat.Automation.Reply.Laws.{text_event}
use manychat.Automation.Issue.{Schemas, unguarded_cycle}
use manychat.Automation.Outgoing.{is_known, targets, edges_of, is_guarded, is_continuation}
use manychat.Automation.Reach
use manychat.Automation.Cycle
use manychat.Automation.Cycle.{UnguardedCycle}
use manychat.Automation.NodeChecks.{node_issues, ports}
use manychat.Automation.Validate.{
  edge_issues, trigger_issues, unreachable_issues, reachable, has_unguarded_cycle,
  validate_scenario_graph,
}
use manychat.Automation.Branch.{
  value_for, SimulationInput, sort_by_priority, priority_of, edge_matches, select_condition,
}
use manychat.Automation.Simulate.{
  default_edge, all_outgoing, output_is, would_execute, next_node, simulate_scenario_graph,
  choice_at, Step,
}
use manychat.Automation.Simulate.Trace.{Runs, ends, goes, first}

-- Unfolds what the runs need.
automation : Unit {0}
unfolding evaluate_condition evaluate_condition_group automation_value_for value_at_path member
    strict_eq includes split lookup insert matches_wait_for_reply_criteria is_supported targets
    edges_of is_guarded Reach.visit_all Reach.visit Cycle.visit_each Cycle.visit reachable
    has_unguarded_cycle node_issues validate_scenario_graph is_known edge_issues trigger_issues
    unreachable_issues ports is_non_empty_string sort_by_priority priority_of edge_matches
    select_condition choice_at simulate_scenario_graph whole value_for next_node default_edge
    all_outgoing output_is
automation = tt

abbrev pub node_at : NodeType → String → Fields → Node
node_at type id config = record {
  config = config;
  id = id;
  position = record { x = pos 0; y = negsuc 4 };
  type = type;
}

abbrev pub edge_to : String → String → String → Edge
edge_to from output to = record {
  condition = none;
  condition_group = none;
  from = from;
  output = output;
  priority = none;
  to = to;
}

abbrev pub tag : Fields
tag = field "tagId" (str "vip") end

abbrev pub small : Graph
small = record {
  edges = edge_to "t" "default" "a" ∷ [];
  nodes = node_at NodeType.incoming_message "t" end ∷ node_at NodeType.add_tag "a" tag ∷ [];
}

abbrev pub looping : Graph
looping = record {
  edges = edge_to "t" "default" "a" ∷ edge_to "a" "default" "a" ∷ [];
  nodes = node_at NodeType.incoming_message "t" end ∷ node_at NodeType.add_tag "a" tag ∷ [];
}

-- A delay that nothing follows, and one in a cycle with a tag.
abbrev pub minute : Fields
minute = field "delaySeconds" (whole 60) end

abbrev pub delayed : Graph
delayed = record {
  edges = edge_to "t" "default" "d" ∷ [];
  nodes = node_at NodeType.incoming_message "t" end ∷ node_at NodeType.delay "d" minute ∷ [];
}

abbrev pub repeating : Graph
repeating = record {
  edges = edge_to "t" "default" "d" ∷ edge_to "d" "default" "a" ∷ edge_to "a" "default" "d" ∷ [];
  nodes =
      node_at NodeType.incoming_message "t" end
      ∷ node_at NodeType.delay "d" minute
      ∷ node_at NodeType.add_tag "a" tag
      ∷ [];
}

abbrev pub accept_all : Schemas
accept_all = record {
  criteria_contract = λ v. some any_reply;
  whatsapp_template = λ v. false;
  external_http = λ fields. none;
}

pub small_accepted : validate_scenario_graph accept_all small ≡ some []
unfolding automation
small_accepted = refl

looping_rejected : validate_scenario_graph accept_all looping ≡ some (unguarded_cycle ∷ [])
unfolding automation
looping_rejected = refl

abbrev pub no_input : SimulationInput
no_input = record {
  contact = undefined;
  custom_fields = undefined;
  event = undefined;
  http_outcome = none;
  wait_outcome = none;
}

pub plain_small : All (λ node. is_continuation node.type ≡ false) small.nodes
plain_small = (refl, (refl, tt))

abbrev pub branch_to : String → Rule → Option ℕ → Edge
branch_to to rule priority = record {
  condition = some rule;
  condition_group = none;
  from = "c";
  output = to;
  priority = priority;
  to = to;
}

abbrev pub says_hi : Rule
says_hi = record { field = "message.text"; operator = equals; value = str "hi" }

abbrev pub says_hello : Rule
says_hello = record { field = "message.text"; operator = equals; value = str "hello" }

abbrev pub low : Edge
low = branch_to "low" says_hi (some 1)

abbrev pub high : Edge
high = branch_to "high" says_hi (some 5)

abbrev pub other : Edge
other = branch_to "other" says_hello (some 2)

abbrev pub hi : SimulationInput
hi = record {
  contact = undefined;
  custom_fields = undefined;
  event = text_event "MESSAGE" "hi";
  http_outcome = none;
  wait_outcome = none;
}

abbrev pub choice_node : Node
choice_node = node_at NodeType.condition "c" end

pub low_selected :
    select_condition hi choice_node (sort_by_priority (high ∷ other ∷ low ∷ [])) ≡ some low
unfolding automation
low_selected = refl

pub low_matches : edge_matches hi choice_node high ≡ true
unfolding automation
low_matches = refl

pub fallback_selected :
    select_condition no_input choice_node
      (sort_by_priority (edge_to "c" "default" "a" ∷ other ∷ []))
    ≡ some (edge_to "c" "default" "a")
unfolding automation
fallback_selected = refl

abbrev pub vip : Fields
vip = field "orders" (obj (field "count" (whole 3) end)) end

vip-Leads : Leads (obj vip) ("orders" ∷ "count" ∷ []) (whole 3)
unfolding automation own is_dangerous
vip-Leads = into refl refl (into refl refl here)

-- `v` has an edge to the continuation node `w` and one to `u`, which both lead back.
abbrev pub missed_targets : String → List String
missed_targets x =
    if x == "v"
    then "w" ∷ "u" ∷ []
    else if x == "w"
    then "u" ∷ []
    else if x == "u"
    then "v" ∷ []
    else []

abbrev pub missed_guarded : String → Bool
missed_guarded x = x == "w"

abbrev pub any_contract : Value → Option Criteria
any_contract v = some any_reply

abbrev pub hello_contract : Value → Option Criteria
hello_contract v = some (Criteria.text false TextOperator.contains "hello")

abbrev pub lower_hello : String → String
lower_hello s = if s == "HELLO" then "hello" else s

abbrev pub small_steps : List Step
small_steps =
    record {
      node_id = "t";
      node_type = NodeType.incoming_message;
      result = would_execute;
      selected_output = some "default";
      next_node_id = some "a";
      reason_code = none;
    }
    ∷ record {
      node_id = "a";
      node_type = NodeType.add_tag;
      result = would_execute;
      selected_output = none;
      next_node_id = none;
      reason_code = none;
    }
    ∷ []

pub small-reachable : reachable small ≡ some ("a" ∷ "t" ∷ [])
unfolding automation
small-reachable = refl

pub own_missing : own "toString" vip ≡ none
unfolding own
own_missing = refl

pub any_matches :
    matches_wait_for_reply_criteria any_contract lower_hello undefined (text_event "MESSAGE" "hi")
    ≡ true
unfolding automation
any_matches = refl

pub type_read : member "type" (record_of (text_event "MESSAGE" "hi")) ≡ str "MESSAGE"
unfolding automation
type_read = refl

pub small_run : Runs small no_input true 2 (first small no_input) small_steps
unfolding automation
small_run =
    goes (node_at NodeType.incoming_message "t" end) (λ e. cc)
      (goes (node_at NodeType.add_tag "a" tag) (λ e. cc) ends)

pub found-looping : has_unguarded_cycle looping ≡ Cycle.found
unfolding automation
found-looping = refl

delayed_accepted : validate_scenario_graph accept_all delayed ≡ some []
unfolding automation is_positive_integer one
delayed_accepted = refl

repeating_accepted : validate_scenario_graph accept_all repeating ≡ some []
unfolding automation is_positive_integer one
repeating_accepted = refl
