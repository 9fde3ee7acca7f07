-- ===== src/Automation/Outgoing.antt =====
-- The maps `nodesById` and `outgoing` of `validateScenarioGraph`
-- (packages/automation-core/src/index.ts). The source has one loop over the edges, which reports and
-- builds `outgoing`; `edge_issues` of `Validate` is the other half.
pub mod Laws
use mathlib.Core.List.{foldl}
use manychat.Prelude.{
  flat_map, ℕ, suc, String, Bool, true, false, ◌||◌, ◌&&◌, not, List, [], ◌∷◌, ◌++◌, map, Option,
  none, some, has, any, filter, length, lookup, insert, is_some, is_blank, leb, ltb, nat_eq, ◌==◌,
  if◌then◌else◌,
}
use manychat.Value.{
  Value, undefined, str, obj, Fields, end, coalesce, member, is_string, is_non_empty_string,
  is_positive_integer,
}
use manychat.Automation.Graph.{
  NodeType, incoming_message, condition, add_tag, remove_tag, send_message, send_template,
  set_custom_field, clear_custom_field, delay, wait_for_reply, start_subflow, external_http_request,
  Operator, exists, not_exists, Rule, Group, Node, Edge, Graph, is_configured,
}
use manychat.Automation.HttpConfig.{HttpConfig}
use manychat.Automation.Reply.{Criteria, preprocess}
use manychat.Automation.Reach
use manychat.Automation.Cycle
use manychat.Automation.Cycle.{Outcome}

-- `new Map(nodes.map((node) => [node.id, node]))`: the last node with an id counts.
unfoldable pub nodes_by_id : List Node → List (String × Node)
nodes_by_id nodes = foldl (λ m (n : Node). insert n.id n m) [] nodes

unfoldable pub is_known : Graph → String → Bool
unfolding nodes_by_id
is_known graph id = is_some (lookup id (nodes_by_id graph.nodes))

abbrev pub or_empty : Option (List Edge) → List Edge
or_empty none = []
or_empty (some edges) = edges

-- `m.get(key) ?? []`
unfoldable pub edges_in : String → List (String × List Edge) → List Edge
edges_in key m = or_empty (lookup key m)

-- `const edges = m.get(key) ?? []; edges.push(edge); m.set(key, edges)`
unfoldable pub push_edge : String → Edge → List (String × List Edge) → List (String × List Edge)
unfolding edges_in
push_edge key edge m = insert key (edges_in key m ++ edge ∷ []) m

abbrev pub has_known_ends : Graph → Edge → Bool
has_known_ends graph edge = is_known graph edge.from && is_known graph edge.to

unfoldable pub outgoing : Graph → List (String × List Edge)
unfolding push_edge
outgoing graph =
    foldl (λ m (edge : Edge). if has_known_ends graph edge then push_edge edge.from edge m else m)
      [] graph.edges

-- `outgoing.get(id) ?? []`
unfoldable pub edges_of : Graph → String → List Edge
unfolding outgoing edges_in
edges_of graph id = edges_in id (outgoing graph)

unfoldable pub targets : Graph → String → List String
targets graph id = map (λ (edge : Edge). edge.to) (edges_of graph id)

abbrev pub is_continuation : NodeType → Bool
is_continuation delay = true
is_continuation wait_for_reply = true
is_continuation _ = false

abbrev pub ids_of : List Node → List String
ids_of nodes = map (λ (node : Node). node.id) nodes

-- `continuationNodes.has(nodesById.get(id)!.type)`
unfoldable pub is_guarded : Graph → String → Bool
is_guarded graph id = elim (lookup id (nodes_by_id graph.nodes)) [
  | none ↦ false
  | some node ↦ is_continuation node.type
]
