-- ===== src/Runtime/Run.antt =====
-- `executeGraph`, `resumeExecutionInTransaction` and `resumeParentIfNeeded` of
-- apps/worker/src/automation/automation-runtime.service.ts. The calls that a run makes of itself, for a
-- subflow or for the parent that it wakes, have fuel; the loop has the source's budget of steps.
use mathlib.Core.List.{foldl}
use manychat.Prelude.{
  ℕ, zero, suc, String, List, [], Option, none, some, find, lookup, ◌==◌, if◌then◌else◌,
}
use manychat.Value.{Value}
use manychat.HttpOutbox.Row.{NodeStatus, is_waiting_execution}
use manychat.Automation.Graph.{Node, Edge, Graph}
use manychat.Automation.Outgoing.{push_edge, edges_in, nodes_by_id}
use manychat.Automation.Validate.{is_trigger}
use manychat.Runtime.Rows.{
  contact_variables_of, ScenarioExecution, NodeRun, Rows, exhausted, throws, returns, Action, pure,
  throw, ◌>>=◌, ◌>>◌, update_rows, find_execution, write_execution, running_at, completed_now,
  is_ended, of_run, create_once,
}
use manychat.Runtime.Project.{RuntimeContext, Project}
use manychat.Runtime.Condition.{NodeResult}
use manychat.Runtime.Node.{apply_node}

-- `startNodeId ? nodes.get(startNodeId) : graph.nodes.find(...)`
unfoldable pub starting_node : Graph → Option String → Option Node
starting_node graph none = find is_trigger graph.nodes
starting_node graph (some id) =
    if id == "" then find is_trigger graph.nodes else lookup id (nodes_by_id graph.nodes)

-- `result.next ? nodes.get(result.next.to) : undefined`
unfoldable pub node_after : Graph → Option Edge → Option Node
node_after graph none = none
node_after graph (some edge) = lookup edge.to (nodes_by_id graph.nodes)

-- `outgoing.get(node.id) ?? []`
unfoldable pub edges_from : Graph → Node → List Edge
unfolding push_edge edges_in
edges_from graph node =
    edges_in node.id (foldl (λ m (edge : Edge). push_edge edge.from edge m) [] graph.edges)

module _ (p : Project) (now : ℕ) where
  -- `nodeExecution` with `PROCESSING`, and with `SUCCEEDED`
  abbrev pub begin_run : String → Node → Action (Unit {0})
  begin_run execution node rows = returns tt (record rows {
    node_runs =
        create_once (of_run execution node.id)
          (record {
            scenario_execution_id = execution;
            node_id = node.id;
            status = NodeStatus.processing;
            completed_at = none;
          })
          rows.node_runs;
  })

  abbrev pub end_run : String → Node → Action (Unit {0})
  end_run execution node rows = returns tt (record rows {
    node_runs =
        update_rows (of_run execution node.id)
          (λ (r : NodeRun). record r { status = NodeStatus.succeeded; completed_at = some now })
          rows.node_runs;
  })

  module _ (call : Graph → String → RuntimeContext → Option String → Action (Unit {0})) where
    abbrev pub context_of : ScenarioExecution → String → Value → Rows → RuntimeContext
    context_of execution event payload rows = record {
      normalized_event_id = event;
      contact_variables = contact_variables_of rows.contact;
      custom_fields = rows.contact.custom_fields;
      event_payload = payload;
      variables = execution.variables;
      subflow_depth = 0;
    }

    abbrev pub resume_graph :
        ScenarioExecution → Option String → String → Option Value → Option Graph → Action (Unit {0})
    resume_graph execution start event payload none rows = throws "automation_graph_invalid"
    resume_graph execution start event none (some graph) rows =
        throws "automation_execution_context_missing"
    resume_graph execution start event (some payload) (some graph) rows =
        (do
          write_execution execution.id (running_at start)
          call graph execution.id (context_of execution event payload rows) start)
          rows

    abbrev pub event_or : Option String → ScenarioExecution → String
    event_or none execution = execution.trigger_event_id
    event_or (some event) execution = event

    abbrev pub resume_found :
        Option String → Option String → Option ScenarioExecution → Action (Unit {0})
    resume_found start event none = pure tt
    resume_found start event (some execution) = elim (p.definition execution.scenario_version_id) [
      | none ↦ pure tt
      | some definition ↦
          if is_ended execution.status
          then pure tt
          else resume_graph execution start (event_or event execution)
              (p.event_payload (event_or event execution)) definition
    ]

    -- `event` is the event of `eventOverride`.
    unfoldable pub resume_execution : String → Option String → Option String → Action (Unit {0})
    resume_execution id start event rows = resume_found start event (find_execution id rows) rows

    abbrev pub resume_waiting : Option String → Option ScenarioExecution → Action (Unit {0})
    resume_waiting start none = pure tt
    resume_waiting start (some parent) =
        if is_waiting_execution parent.status
        then resume_execution parent.id start none
        else pure tt

    abbrev pub resume_parent_of : Option ScenarioExecution → Action (Unit {0})
    resume_parent_of none = pure tt
    resume_parent_of (some child) = elim child.parent_execution_id [
      | none ↦ pure tt
      | some parent ↦
          (λ rows. resume_waiting child.resume_node_id (find_execution parent rows) rows)
    ]

    unfoldable pub resume_parent_if_needed : String → Action (Unit {0})
    unfolding resume_execution
    resume_parent_if_needed id rows = resume_parent_of (find_execution id rows) rows

    -- One round of the loop up to the test for a suspension.
    unfoldable pub run_node :
        Graph → String → Node → RuntimeContext → Action (NodeResult × RuntimeContext)
    unfolding edges_from
    run_node graph execution node context = do
      write_execution execution (running_at (some node.id))
      begin_run execution node
      (result, after) ←
          apply_node p now call node.type execution node (edges_from graph node) context
      end_run execution node
      pure (result, after)

    abbrev pub conclude_run : String → Action (Unit {0})
    conclude_run execution = do
      write_execution execution (completed_now now)
      resume_parent_if_needed execution

    -- The loop, with the steps that are left, and what follows it. A run that has used up its steps
    -- fails, also where no node is left. The context, which its nodes change, is handed back.
    unfoldable pub run_loop :
        ℕ → Graph → String → Option Node → RuntimeContext → Action RuntimeContext
    unfolding run_node
    run_loop zero graph execution current context = throw "automation_step_budget_exhausted"
    run_loop (suc left) graph execution none context = do conclude_run execution; pure context
    run_loop (suc left) graph execution (some node) context = do
      (result, after) ← run_node graph execution node context
      let rest = run_loop left graph execution (node_after graph result.next) after
      if result.suspended then pure after else rest

  -- A call that has a context of its own, which nobody reads afterwards.
  abbrev pub dropping : {A : Type 0} → Action A → Action (Unit {0})
  dropping m = m >>= λ _. pure tt

  unfoldable pub execute_graph :
      ℕ → Graph → String → RuntimeContext → Option String → Action RuntimeContext
  unfolding run_loop starting_node
  execute_graph zero graph execution context start rows = exhausted
  execute_graph (suc fuel) graph execution context start rows =
      run_loop (λ child id own from. dropping (execute_graph fuel child id own from)) 100 graph
        execution (starting_node graph start) context rows

  abbrev pub run_graph : ℕ → Graph → String → RuntimeContext → Option String → Action (Unit {0})
  run_graph fuel graph execution context start =
      dropping (execute_graph fuel graph execution context start)
