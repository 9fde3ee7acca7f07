-- ===== src/Automation/Simulate/Trace.antt =====
-- The steps of a simulation follow the edges of the graph, and how many there are.
use mathlib.Core.List.{append-nil, append_assoc}
use manychat.Prelude.{
  ℕ, zero, suc, ◌≤◌, ◌<◌, ◌≡◌, ◌≢◌, refl, ap, ◌∙◌, inl, inr, Bool, true, false, List, [], ◌∷◌, ◌++◌,
  Option, none, some, find, arith, ltb, leb, Bool-cases, if◌then◌else◌,
}
use manychat.Automation.Graph.{Node, Graph}
use manychat.Automation.Validate.{is_trigger}
use manychat.Automation.Branch.{SimulationInput}
use manychat.Automation.Simulate.{
  StepResult, completed, waiting, would_execute, Step, Simulated, budget_exhausted, simulated,
  step_of, choice_at, next_node, proceed, loop, simulate_scenario_graph,
}

proceed_goes :
    (paused rest : Simulated) (r : StepResult) → r ≢ waiting → proceed r paused rest ≡ rest
unfolding proceed
proceed_goes paused rest completed n = refl
proceed_goes paused rest waiting n = absurd (n refl)
proceed_goes paused rest would_execute n = refl

proceed_waits :
    (paused rest : Simulated) (r : StepResult) → r ≡ waiting → proceed r paused rest ≡ paused
unfolding proceed
proceed_waits paused rest r w = rw (w, proceed)

-- How a scenario runs from a node, without a bound: it ends after `n` steps, or waits at step `n`.
module _ (graph : Graph) (input : SimulationInput) where
  abbrev pub after : Node → Option Node
  after node = next_node graph input (choice_at graph input node).selected

  pub data Runs : Bool → ℕ → Option Node → List Step → Type 0 where
    ends : Runs true 0 none []
    waits :
        (node : Node)
        → (choice_at graph input node).result ≡ waiting
        → Runs false 1 (some node) (step_of node (choice_at graph input node) ∷ [])
    goes :
        {done : Bool} {n : ℕ} {steps : List Step} (node : Node)
        → (choice_at graph input node).result ≢ waiting
        → Runs done n (after node) steps
        → Runs done (suc n) (some node) (step_of node (choice_at graph input node) ∷ steps)

  -- One round of the loop, and one that waits.
  loop-goes :
      (budget : ℕ) (node : Node) (steps : List Step)
      → (choice_at graph input node).result ≢ waiting
      → loop graph input (suc budget) (some node) steps
        ≡ loop graph input budget
            (after node)
            (steps ++ step_of node (choice_at graph input node) ∷ [])
  unfolding loop
  loop-goes budget node steps n = proceed_goes _ _ (choice_at graph input node).result n

  loop-waits :
      (budget : ℕ) (node : Node) (steps : List Step)
      → (choice_at graph input node).result ≡ waiting
      → loop graph input (suc budget) (some node) steps
        ≡ simulated false (steps ++ step_of node (choice_at graph input node) ∷ [])
  unfolding loop
  loop-waits budget node steps w = proceed_waits _ _ (choice_at graph input node).result w

  loop-completes :
      (budget : ℕ) (before : List Step) {n : ℕ} {current : Option Node} {steps : List Step}
      → Runs true n current steps
      → n < budget
      → loop graph input budget current before ≡ simulated true (before ++ steps)
  loop-completes zero before r lt = absurd (omega arith)
  loop-completes (suc budget) before ends lt = unfold loop in rw append-nil
  loop-completes (suc budget) before (goes {n} {steps} node w r) lt =
      loop-goes budget node before w
      ∙ loop-completes budget (before ++ step_of node (choice_at graph input node) ∷ []) r
          (omega arith)
      ∙ ap (simulated true)
          (append_assoc before (step_of node (choice_at graph input node) ∷ []) steps)

  loop-pauses :
      (budget : ℕ) (before : List Step) {n : ℕ} {current : Option Node} {steps : List Step}
      → Runs false n current steps
      → n ≤ budget
      → loop graph input budget current before ≡ simulated false (before ++ steps)
  loop-pauses zero before (waits node w) lt = absurd (omega arith)
  loop-pauses zero before (goes node w r) lt = absurd (omega arith)
  loop-pauses (suc budget) before (waits node w) lt = loop-waits budget node before w
  loop-pauses (suc budget) before (goes {n} {steps} node w r) lt =
      loop-goes budget node before w
      ∙ loop-pauses budget (before ++ step_of node (choice_at graph input node) ∷ []) r
          (omega arith)
      ∙ ap (simulated false)
          (append_assoc before (step_of node (choice_at graph input node) ∷ []) steps)

  loop-exhausts :
      (budget : ℕ) (before : List Step) {n : ℕ} {current : Option Node} {steps : List Step}
      → Runs true n current steps
      → budget ≤ n
      → loop graph input budget current before ≡ budget_exhausted
  loop-exhausts zero before r le = unfold loop in refl
  loop-exhausts (suc budget) before ends le = absurd (omega arith)
  loop-exhausts (suc budget) before (goes node w r) le =
      loop-goes budget node before w
      ∙ loop-exhausts budget (before ++ step_of node (choice_at graph input node) ∷ []) r
          (omega arith)

  loop-exhausts_paused :
      (budget : ℕ) (before : List Step) {n : ℕ} {current : Option Node} {steps : List Step}
      → Runs false n current steps
      → budget < n
      → loop graph input budget current before ≡ budget_exhausted
  loop-exhausts_paused zero before r le = unfold loop in refl
  loop-exhausts_paused (suc budget) before (waits node w) le = absurd (omega arith)
  loop-exhausts_paused (suc budget) before (goes node w r) le =
      loop-goes budget node before w
      ∙ loop-exhausts_paused budget (before ++ step_of node (choice_at graph input node) ∷ []) r
          (omega arith)

  abbrev pub first : Option Node
  first = find is_trigger graph.nodes

  -- What the loop with its budget of 100 gives for such a run: `budget <= 0` is also true after a run
  -- that ends at its hundredth step.
  abbrev pub within_budget : Bool → ℕ → List Step → Simulated
  within_budget true n steps = if ltb n 100 then simulated true steps else budget_exhausted
  within_budget false n steps = if leb n 100 then simulated false steps else budget_exhausted

  -- The simulation against the run without a bound: a run that ends after n steps is returned as
  -- completed if n < 100, and throws from 100 steps on; one that waits at step n is returned as not
  -- completed if n ≤ 100, and throws beyond.
  pub simulate_scenario_graph-Runs :
      (done : Bool) (n : ℕ) (steps : List Step)
      → Runs done n first steps
      → simulate_scenario_graph graph input ≡ within_budget done n steps
  unfolding simulate_scenario_graph
  simulate_scenario_graph-Runs true n steps r = elim (Bool-cases (ltb n 100)) [
    | inl t ↦ loop-completes 100 [] r (ground (arith, t)) ∙ rw t refl
    | inr f ↦ loop-exhausts 100 [] r (ground (arith, f)) ∙ rw f refl
  ]
  simulate_scenario_graph-Runs false n steps r = elim (Bool-cases (leb n 100)) [
    | inl t ↦ loop-pauses 100 [] r (ground (arith, t)) ∙ rw t refl
    | inr f ↦ loop-exhausts_paused 100 [] r (ground (arith, f)) ∙ rw f refl
  ]
