-- ===== src/Automation/Validate/Accepted.antt =====
-- What holds of a graph that `validateScenarioGraph` accepts, and that the validation always answers.
use manychat.Prelude.{
  String, ◌≡◌, ◌≢◌, refl, ap, ◌∙◌, Bool, true, false, not, List, [], ◌∷◌, some, has, arith, All,
  All-map, All-of_flat_map-nil, nil_of_append, length, eq_of_some-eq-some,
}
use manychat.Automation.Graph.{Edge, Graph}
use manychat.Automation.Issue.{Issue, Schemas}
use manychat.Automation.Outgoing.{edges_of, ids_of}
use manychat.Automation.Outgoing.Laws.{is_known_lem}
use manychat.Automation.NodeChecks.{node_issues}
use manychat.Automation.Cycle
use manychat.Automation.Cycle.{Outcome}
use manychat.Automation.Validate.{
  is_empty, edge_issues, triggers, trigger_issues, reachable, has_unguarded_cycle,
  unreachable_issues, cycle_issues, all_issues, validate_scenario_graph,
}
use manychat.Automation.Validate.Nodes.{false_of_report-nil, eq_of_not-nat_eq}
use manychat.Automation.Validate.Demands.{NodeOk, node_issues-NodeOk}
use manychat.Automation.Validate.Search.{
  Reached, reachable-ends, reachable_iff, has_unguarded_cycle-ne-exhausted,
}

cycle_issues-some :
    (o : Outcome) → o ≢ Cycle.exhausted → (issues : List Issue) × (cycle_issues o ≡ some issues)
cycle_issues-some Cycle.exhausted n = absurd (n refl)
cycle_issues-some Cycle.found n = (_, refl)
cycle_issues-some (Cycle.done s) n = (_, refl)

-- The validation ends: the fuel of neither search runs out, whatever the graph.
pub validate_scenario_graph-total :
    (schemas : Schemas) (graph : Graph)
    → (issues : List Issue) × (validate_scenario_graph schemas graph ≡ some issues)
unfolding validate_scenario_graph
validate_scenario_graph-total schemas graph =
    let (seen, e) = reachable-ends graph in
    let (cycles, f) = cycle_issues-some _ (has_unguarded_cycle-ne-exhausted graph) in
    (all_issues schemas graph seen cycles, rw (e, f, validate_scenario_graph))

-- The parts of the list of issues, for a graph that has none.
pub record Clean (schemas : Schemas) (graph : Graph) : Type 0 where
  pub seen : List String
  pub searched : reachable graph ≡ some seen
  pub acyclic : cycle_issues (has_unguarded_cycle graph) ≡ some []
  pub edges : All (λ edge. edge_issues graph edge ≡ []) graph.edges
  pub trigger : trigger_issues graph ≡ []
  pub nodes : All (λ node. node_issues schemas graph node ≡ []) graph.nodes
  pub reached : unreachable_issues graph seen ≡ []

pub Clean-of_accepted :
    (schemas : Schemas) (graph : Graph)
    → validate_scenario_graph schemas graph ≡ some []
    → Clean schemas graph
unfolding validate_scenario_graph
Clean-of_accepted schemas graph h =
    let (seen, e) = reachable-ends graph in
    let (cycles, f) = cycle_issues-some _ (has_unguarded_cycle-ne-exhausted graph) in
    let all = eq_of_some-eq-some (rw (e, f, validate_scenario_graph) at h) in
    let (edges, a) = nil_of_append _ _ all in
    let (trigger, b) = nil_of_append _ _ a in
    let (nodes, c) = nil_of_append _ _ b in
    let (reached, last) = nil_of_append _ _ c in
    record {
      seen = seen;
      searched = e;
      acyclic = f ∙ ap some last;
      edges = All-of_flat_map-nil (edge_issues graph) graph.edges edges;
      trigger = trigger;
      nodes = All-of_flat_map-nil (node_issues schemas graph) graph.nodes nodes;
      reached = reached;
    }

ne-nil_of_not_empty : (edges : List Edge) → is_empty edges ≡ false → edges ≢ []
ne-nil_of_not_empty [] h = cc
ne-nil_of_not_empty (edge ∷ edges) h = λ e. cc

true_of_not-false : (b : Bool) → not b ≡ false → b ≡ true
true_of_not-false b h = ground arith

module _ (schemas : Schemas) (graph : Graph) where
  -- What the validation promises of a graph without issues.
  pub record Accepted : Type 0 where
    pub known :
        All
          (λ edge.
            (has edge.from (ids_of graph.nodes) ≡ true) × (has edge.to (ids_of graph.nodes) ≡ true))
          graph.edges
    pub one_trigger : length (triggers graph) ≡ 1
    pub trigger_leads : All (λ node. edges_of graph node.id ≢ []) (triggers graph)
    pub nodes : All (NodeOk schemas graph) graph.nodes
    pub reached : All (λ node. Reached graph node.id) graph.nodes

  edge_known :
      (edge : Edge)
      → edge_issues graph edge ≡ []
      → (has edge.from (ids_of graph.nodes) ≡ true) × (has edge.to (ids_of graph.nodes) ≡ true)
  unfolding edge_issues
  edge_known edge h = ground (arith, is_known_lem graph edge.from, is_known_lem graph edge.to)

  trigger_parts :
      trigger_issues graph ≡ []
      → (length (triggers graph) ≡ 1) × All (λ node. edges_of graph node.id ≢ []) (triggers graph)
  unfolding trigger_issues
  trigger_parts h =
      let (count, paths) = nil_of_append _ _ h in
      (
        eq_of_not-nat_eq _ _ (false_of_report-nil _ _ count),
        All-map _ _ (triggers graph) (λ node e. ne-nil_of_not_empty _ (false_of_report-nil _ _ e))
            (All-of_flat_map-nil _ (triggers graph) paths),
      )

  Reached-parts :
      (seen : List String)
      → reachable graph ≡ some seen
      → unreachable_issues graph seen ≡ []
      → All (λ node. Reached graph node.id) graph.nodes
  unfolding unreachable_issues
  Reached-parts seen e h =
      All-map _ _ graph.nodes
        (λ node n.
          (reachable_iff graph seen e node.id).0 (true_of_not-false _ (false_of_report-nil _ _ n)))
        (All-of_flat_map-nil _ graph.nodes h)

  -- Of a graph that the validation accepts: every edge joins two nodes of the graph, there is exactly one
  -- INCOMING_MESSAGE node, it has an edge, and a walk along edges leads from it to every node. Only
  -- CONDITION nodes have two edges with one output. Each node meets the demands of its type (`Meets`): the
  -- edges of a CONDITION node have different priorities and one fallback at most, delays and timeouts are
  -- positive integers, criteria, tags, fields, subflows and templates are there, a message has a text and
  -- the connection that its target needs, and an EXTERNAL_HTTP_REQUEST node has a configuration that
  -- parses, a status range that is not empty, and one `success` and one `failure` edge.
  pub Accepted_of_validate : validate_scenario_graph schemas graph ≡ some [] → Accepted
  Accepted_of_validate h =
      let c = Clean-of_accepted schemas graph h in
      let (one, leads) = trigger_parts c.trigger in
      record {
        known = All-map _ _ graph.edges edge_known c.edges;
        one_trigger = one;
        trigger_leads = leads;
        nodes = All-map _ _ graph.nodes (node_issues-NodeOk schemas graph) c.nodes;
        reached = Reached-parts c.seen c.searched c.reached;
      }
