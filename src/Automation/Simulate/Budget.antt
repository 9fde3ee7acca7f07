-- ===== src/Automation/Simulate/Budget.antt =====
-- On an accepted graph without continuation nodes the budget of the simulation is enough.
use mathlib.Core.List.{foldl}
use manychat.Prelude.{
  ℕ, zero, suc, ◌+◌, ◌<◌, String, ◌≡◌, ◌≢◌, refl, sym, ap, ◌∙◌, inl, inr, Bool, true, false, ◌&&◌,
  List, [], ◌∷◌, ◌++◌, map, Option, none, some, find, filter, has, lookup, insert, lookup-insert,
  length, All, All-map, Bool-cases, eq_of_some-eq-some, arith, ◌==◌, eq_iff, eq_refl,
}
use manychat.Automation.Graph.{Node, Edge, Graph}
use manychat.Automation.Issue.{Schemas}
use manychat.Automation.Outgoing.{
  edges_in, edges_of, nodes_by_id, targets, ids_of, is_guarded, is_continuation, has_known_ends,
}
use manychat.Automation.Outgoing.Laws.{edges_in-collect, edges_of_lem, is_known_lem, targets-known}
use manychat.Automation.Validate.{is_trigger, validate_scenario_graph}
use manychat.Automation.Validate.Accepted.{Accepted_of_validate}
use manychat.Automation.Branch.{SimulationInput, sort_by_priority}
use manychat.Automation.Branch.Order.{All-sort}
use manychat.Automation.Simulate.Selected.{AtMost, AtMost-choose}
use manychat.Automation.Cycle.Acyclic.{
  depth, depth-le, depth-pos, depth_lt, Ordered, visit_each-Ordered,
}
use manychat.Automation.Validate.Accepted.{Clean-of_accepted}
use manychat.Automation.Validate.Cycles.{is_guarded-free, done_of_cycle_issues}
use manychat.Automation.Validate.{has_unguarded_cycle}
use manychat.Automation.Simulate.{
  choice_at, all_outgoing, next_node, proceed, loop, budget_exhausted, simulate_scenario_graph,
  Simulated, StepResult, Step, step_of,
}

filter-known :
    (known : Edge → Bool) (id : String) (edges : List Edge)
    → All (λ e. known e ≡ true) edges
    → filter (λ e. true && e.from == id) edges ≡ filter (λ e. known e && e.from == id) edges
filter-known known id [] h = refl
filter-known known id (e ∷ edges) (k, h) = rw (k, filter-known known id edges h)

All-targets :
    (edges : List Edge) → All (λ e. has e.to (map (λ (f : Edge). f.to) edges) ≡ true) edges
All-targets [] = tt
All-targets (e ∷ edges) =
    (rw (eq_refl e.to), All-map _ _ edges (λ f h. ground arith) (All-targets edges))

-- A node stands in the map under its id.
lookup-id :
    (id : String) (m : List (String × Node)) (nodes : List Node) (n : Node)
    → ((k : Node) → lookup id m ≡ some k → k.id ≡ id)
    → lookup id (foldl (λ m (n : Node). insert n.id n m) m nodes) ≡ some n
    → n.id ≡ id
lookup-id id m [] n base h = base n h
lookup-id id m (p ∷ nodes) n base h =
    lookup-id id (insert p.id p m) nodes n
      (λ k e. ground (arith, lookup-insert p.id id p m, base k, eq_iff p.id id)) h

has-find :
    (test : Node → Bool) (nodes : List Node) (n : Node)
    → find test nodes ≡ some n
    → has n.id (ids_of nodes) ≡ true
has-find test [] n h = cc
has-find test (p ∷ nodes) n h = elim (Bool-cases (test p)) [
  | inl hit ↦ let same : p ≡ n = eq_of_some-eq-some (rw hit at h) in rw (← same) (rw (eq_refl p.id))
  | inr miss ↦ ground (arith, has-find test nodes n (rw miss at h))
]

length-ids : (nodes : List Node) → length (ids_of nodes) ≡ length nodes
length-ids [] = refl
length-ids (n ∷ nodes) = ap suc (length-ids nodes)

ends_known :
    (graph : Graph) (e : Edge)
    → (has e.from (ids_of graph.nodes) ≡ true) × (has e.to (ids_of graph.nodes) ≡ true)
    → has_known_ends graph e ≡ true
ends_known graph e h = ground (arith, is_known_lem graph e.from, is_known_lem graph e.to)

proceed-ne :
    (r : StepResult) (paused rest x : Simulated) → paused ≢ x → rest ≢ x → proceed r paused rest ≢ x
unfolding proceed
proceed-ne StepResult.completed paused rest x p q = q
proceed-ne StepResult.waiting paused rest x p q = p
proceed-ne StepResult.would_execute paused rest x p q = q

module _ (graph : Graph) (input : SimulationInput)
    (known : All (λ e. has_known_ends graph e ≡ true) graph.edges) where
  all_outgoing_lem : (id : String) → edges_in id (all_outgoing graph input) ≡ edges_of graph id
  unfolding all_outgoing edges_in lookup
  all_outgoing_lem id =
      edges_in-collect (λ e. true) (λ (e : Edge). e.from) id [] graph.edges
      ∙ filter-known (has_known_ends graph) id graph.edges known
      ∙ sym (edges_of_lem graph id)

  abbrev Leads : String → Edge → Type 0
  Leads id e = has e.to (targets graph id) ≡ true

  edges-Leads :
      (id : String) → All (Leads id) (sort_by_priority (edges_in id (all_outgoing graph input)))
  unfolding targets
  edges-Leads id =
      All-sort (Leads id) (edges_in id (all_outgoing graph input))
        (rw (all_outgoing_lem id) (All-targets (edges_of graph id)))

  next_node-Leads :
      (id : String) (o : Option Edge) (next : Node)
      → AtMost (Leads id) o
      → next_node graph input o ≡ some next
      → has next.id (targets graph id) ≡ true
  unfolding next_node nodes_by_id lookup
  next_node-Leads id none next p h = cc
  next_node-Leads id (some e) next p h =
      let same : next.id ≡ e.to = lookup-id e.to [] graph.nodes next (λ k q. cc) h in rw same p

  -- The next node is the target of an edge of the current one.
  next_node-target :
      (node next : Node)
      → next_node graph input (choice_at graph input node).selected ≡ some next
      → has next.id (targets graph node.id) ≡ true
  unfolding choice_at
  next_node-target node next h =
      next_node-Leads node.id _ next
        (AtMost-choose (Leads node.id) input node _ (edges-Leads node.id) node.type) h

  module _ (visited : List String) (ordered : Ordered (targets graph) visited)
      (listed : (x : String) → has x (ids_of graph.nodes) ≡ true → has x visited ≡ true) where
    -- The budget left is more than the nodes that can still come.
    abbrev Room : ℕ → Option Node → Type 0
    Room budget none = 0 < budget
    Room budget (some node) =
        (has node.id (ids_of graph.nodes) ≡ true)
        × (length (ids_of graph.nodes) + 1 < budget + depth (ids_of graph.nodes) visited node.id)

    Room-next :
        (budget : ℕ) (node : Node) (o : Option Node)
        → Room (suc budget) (some node)
        → ((next : Node) → o ≡ some next → has next.id (targets graph node.id) ≡ true)
        → Room budget o
    Room-next budget node none (known_id, lt) leads =
        omega (arith, depth-le (ids_of graph.nodes) visited node.id)
    Room-next budget node (some next) (known_id, lt) leads =
        let target = leads next refl in
        let next_known = targets-known graph node.id next.id target in
        let (k, grows) =
          depth_lt (targets graph) (ids_of graph.nodes) visited node.id next.id ordered
            (listed node.id known_id) target next_known in
        (next_known, omega arith)

    loop-ne-exhausted :
        (budget : ℕ) (current : Option Node) (steps : List Step)
        → Room budget current
        → loop graph input budget current steps ≢ budget_exhausted
    unfolding loop
    loop-ne-exhausted zero none steps room = absurd (omega arith)
    loop-ne-exhausted zero (some node) steps (known_id, room) =
        absurd (omega (arith, depth-le (ids_of graph.nodes) visited node.id))
    loop-ne-exhausted (suc budget) none steps room = λ e. cc
    loop-ne-exhausted (suc budget) (some node) steps room =
        proceed-ne (choice_at graph input node).result _ _ budget_exhausted (λ e. cc)
          (loop-ne-exhausted budget (next_node graph input (choice_at graph input node).selected)
            (steps ++ step_of node (choice_at graph input node) ∷ [])
            (Room-next budget node _ room (next_node-target node)))

    Room-start :
        (o : Option Node)
        → find is_trigger graph.nodes ≡ o
        → length (ids_of graph.nodes) < 100
        → Room 100 o
    Room-start none e few = omega arith
    Room-start (some node) e few =
        let known_id = has-find is_trigger graph.nodes node e in
        (known_id, omega (arith, depth-pos (ids_of graph.nodes) visited node.id known_id))

-- On a graph that the validation accepts, without DELAY and WAIT_FOR_REPLY nodes and with fewer than
-- 100 nodes, the simulation never runs out of its budget, whatever the input.
pub simulate-ne-exhausted :
    (schemas : Schemas) (graph : Graph) (input : SimulationInput)
    → validate_scenario_graph schemas graph ≡ some []
    → All (λ node. is_continuation node.type ≡ false) graph.nodes
    → length graph.nodes < 100
    → simulate_scenario_graph graph input ≢ budget_exhausted
unfolding simulate_scenario_graph has_unguarded_cycle
simulate-ne-exhausted schemas graph input accepted plain few =
    let (s, e) = done_of_cycle_issues _ (Clean-of_accepted schemas graph accepted).acyclic in
    let (listed, ordered) =
      visit_each-Ordered (targets graph) (is_guarded graph) (λ x. is_guarded-free graph x plain) _
        (ids_of graph.nodes) s e in
    let known =
      All-map _ (λ e. has_known_ends graph e ≡ true) graph.edges (ends_known graph)
        (Accepted_of_validate schemas graph accepted).known in
    loop-ne-exhausted graph input known s.visited ordered listed 100 (find is_trigger graph.nodes)
      []
      (Room-start graph input known s.visited ordered listed (find is_trigger graph.nodes) refl
        (rw length-ids few))
