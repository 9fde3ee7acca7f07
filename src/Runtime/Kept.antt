-- ===== src/Runtime/Kept.antt =====
-- A property of delayed actions and waits, through the runs of
-- apps/worker/src/automation/automation-runtime.service.ts, whatever their order.
use manychat.Prelude.{
  ℕ, zero, suc, String, Option, none, some, if◌then◌else◌, inl, inr, Bool-cases, Option-cases,
}
use manychat.Value.{Value}
use manychat.HttpOutbox.Row.{is_waiting_execution}
use manychat.Automation.Graph.{Node, Graph}
use manychat.Runtime.Rows.{
  ScenarioExecution, Action, pure, ◌>>◌, find_execution, is_execution, completed_now, is_ended,
  update_rows,
}
use manychat.Runtime.Project.{RuntimeContext, Project}
use manychat.Runtime.Condition.{NodeResult}
use manychat.Runtime.Run.{
  edges_from, node_after, starting_node, end_run, run_node, run_loop, resume_graph, resume_found,
  resume_execution, resume_waiting, resume_parent_of, resume_parent_if_needed, execute_graph,
  run_graph,
}
use manychat.Runtime.Lifecycle.{Property, KeptByNodes, continue-Leaves}
use manychat.Runtime.Preserved.{Preserves, apply_node-Preserves}

module _ (J : Property) where
  module _ (p : Project) (now : ℕ) (kept : KeptByNodes p J) where
    module _ (call : Graph → String → RuntimeContext → Option String → Action (Unit {0}))
        (calls : (graph : Graph) (id : String) (context : RuntimeContext) (start : Option String)
          → Preserves J (call graph id context start)) where
      resume_graph-Preserves :
          (e : ScenarioExecution) (start : Option String) (event : String) (payload : Option Value)
          (graph : Option Graph)
          → Preserves J (resume_graph p now call e start event payload graph)
      resume_graph-Preserves e start event payload none rows u = tt
      resume_graph-Preserves e start event none (some graph) rows u = tt
      resume_graph-Preserves e start event (some payload) (some graph) rows u =
          calls graph e.id _ start _ u

      resume_found-Preserves :
          (start event : Option String) (o : Option ScenarioExecution)
          → Preserves J (resume_found p now call start event o)
      resume_found-Preserves start event none rows u = u
      resume_found-Preserves start event (some e) rows u =
          elim (Option-cases (p.definition e.scenario_version_id)) [
            | inl d ↦ rw (d, resume_found) u
            | inr (definition, d) ↦
                rw (d, resume_found)
                  (elim (Bool-cases (is_ended e.status)) [
                    | inl over ↦ rw over u
                    | inr live ↦ rw live (resume_graph-Preserves e start _ _ definition rows u)
                  ])
          ]

      pub resume_execution-Preserves :
          (id : String) (start event : Option String)
          → Preserves J (resume_execution p now call id start event)
      unfolding resume_execution
      resume_execution-Preserves id start event rows u =
          resume_found-Preserves start event (find_execution id rows) rows u

      resume_waiting-Preserves :
          (start : Option String) (o : Option ScenarioExecution)
          → Preserves J (resume_waiting p now call start o)
      resume_waiting-Preserves start none rows u = u
      resume_waiting-Preserves start (some parent) rows u =
          elim (Bool-cases (is_waiting_execution parent.status)) [
            | inl w ↦ rw w (resume_execution-Preserves parent.id start none rows u)
            | inr w ↦ rw w u
          ]

      resume_parent-Preserves :
          (o : Option ScenarioExecution) → Preserves J (resume_parent_of p now call o)
      resume_parent-Preserves none rows u = u
      resume_parent-Preserves (some child) rows u = elim (Option-cases child.parent_execution_id) [
        | inl e ↦ rw (e, resume_parent_of) u
        | inr (parent, e) ↦
            rw (e, resume_parent_of)
              (resume_waiting-Preserves child.resume_node_id (find_execution parent rows) rows u)
      ]

      resume_parent_if_needed-Preserves :
          (id : String) → Preserves J (resume_parent_if_needed p now call id)
      unfolding resume_parent_if_needed
      resume_parent_if_needed-Preserves id rows u =
          resume_parent-Preserves (find_execution id rows) rows u

      run_node-Preserves :
          (graph : Graph) (id : String) (node : Node) (context : RuntimeContext)
          → Preserves J (run_node p now call graph id node context)
      unfolding run_node
      run_node-Preserves graph id node context rows u =
          continue-Leaves J J _ (λ (result, after). end_run p now id node >> pure (result, after))
            (apply_node-Preserves J p now kept call calls node.type id node (edges_from graph node)
              context _ u)
            (λ r later v. v)

      -- What the loop does with the result of a node.
      abbrev go_on : ℕ → Graph → String → NodeResult × RuntimeContext → Action RuntimeContext
      go_on left graph id (result, after) =
          if result.suspended
          then pure after
          else run_loop p now call left graph id (node_after graph result.next) after

      pub run_loop-Preserves :
          (left : ℕ) (graph : Graph) (id : String) (current : Option Node)
          (context : RuntimeContext)
          → Preserves J (run_loop p now call left graph id current context)
      unfolding run_loop
      run_loop-Preserves zero graph id current context rows u = tt
      run_loop-Preserves (suc left) graph id none context rows u =
          let done = record rows {
            executions = update_rows (is_execution id) (completed_now now) rows.executions;
          } in
          continue-Leaves J J _ (λ x. pure context) (resume_parent_if_needed-Preserves id done u)
            (λ x after v. v)
      run_loop-Preserves (suc left) graph id (some node) context rows u =
          continue-Leaves J J _ (go_on left graph id)
            (run_node-Preserves graph id node context rows u)
            (λ (result, after) later v. elim (Bool-cases result.suspended) [
              | inl e ↦ rw e v
              | inr e ↦
                  rw e
                    (run_loop-Preserves left graph id (node_after graph result.next) after later v)
            ])

    pub run_graph-Preserves :
        (fuel : ℕ)
        → ((graph : Graph) (id : String) (context : RuntimeContext) (start : Option String)
            → Preserves J (execute_graph p now fuel graph id context start))
        → (graph : Graph) (id : String) (context : RuntimeContext) (start : Option String)
        → Preserves J (run_graph p now fuel graph id context start)
    run_graph-Preserves fuel runs graph id context start rows u =
        continue-Leaves J J _ (λ x. pure tt) (runs graph id context start rows u) (λ x after v. v)

    pub execute_graph-Preserves :
        (fuel : ℕ) (graph : Graph) (id : String) (context : RuntimeContext) (start : Option String)
        → Preserves J (execute_graph p now fuel graph id context start)
    unfolding execute_graph
    execute_graph-Preserves zero graph id context start rows u = tt
    execute_graph-Preserves (suc fuel) graph id context start rows u =
        run_loop-Preserves (run_graph p now fuel)
          (run_graph-Preserves fuel (execute_graph-Preserves fuel)) 100 graph id
          (starting_node graph start) context rows u
