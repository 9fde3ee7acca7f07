-- ===== src/Runtime/Agree.antt =====
-- The branch that a CONDITION node takes in the worker
-- (apps/worker/src/automation/automation-runtime.service.ts) and in the simulation of
-- packages/automation-core/src/index.ts.
use manychat.Prelude.{
  String, Bool, true, false, not, List, [], ◌∷◌, Option, none, some, All, find, or_else, ◌==◌, ◌≡◌,
  ap, refl, inl, inr, arith, Bool-cases, Option-cases,
}
use manychat.Value.{
  Value, undefined, null, bool, num, str, obj, arr, inherited, end, coalesce, member,
}
use manychat.Automation.Graph.{Rule, Node, Edge}
use manychat.Automation.Condition.{evaluate_condition, evaluate_condition_group}
use manychat.Automation.Field.{record_of, automation_value_for}
use manychat.Automation.Branch.{
  SimulationInput, legacy_matches, value_for, rule_matches, edge_matches, select_condition,
  sort_by_priority, configured, operator_named,
}
use manychat.Automation.Branch.Order.{All-sort}
use manychat.Runtime.Project.{RuntimeContext}
use manychat.Runtime.Condition.{
  runtime_value_for, config_matches, branch_matches, matched_branch, apply_condition, is_legacy,
}

or_else-none : (o : Option Edge) → or_else o none ≡ o
or_else-none none = refl
or_else-none (some e) = refl

record_of-coalesce : (v : Value) → record_of (coalesce v (obj end)) ≡ record_of v
record_of-coalesce undefined = refl
record_of-coalesce null = refl
record_of-coalesce (bool b) = refl
record_of-coalesce (num n) = refl
record_of-coalesce (str s) = refl
record_of-coalesce (obj fields) = refl
record_of-coalesce (arr items) = refl
record_of-coalesce (inherited name) = refl

-- The simulation is given what the execution has: the event, the custom fields and the contact. An
-- execution that no request has answered has no variables, as a simulation has none.
pub record Corresponds (input : SimulationInput) (context : RuntimeContext) : Type 0 where
  pub same_event : input.event ≡ context.event_payload
  pub same_fields : input.custom_fields ≡ context.custom_fields
  pub same_contact : input.contact ≡ obj context.contact_variables
  pub no_variables : record_of context.variables ≡ end

-- A rule that names a field; a group's rules need not.
abbrev pub is_named : Edge → Bool
is_named edge = elim edge.condition [ none ↦ true | some rule ↦ not (rule.field == "") ]

abbrev pub names_field : Value → Bool
names_field (str field) = not (field == "")
names_field _ = true

value_for-runtime :
    (input : SimulationInput) (context : RuntimeContext) (field : String)
    → Corresponds input context
    → value_for input field ≡ runtime_value_for context field
unfolding value_for runtime_value_for automation_value_for
value_for-runtime input context field c =
    rw
      (
        c.same_event,
        c.same_fields,
        c.same_contact,
        record_of-coalesce context.event_payload,
        record_of-coalesce context.custom_fields,
        c.no_variables,
      )
      refl

module _ (input : SimulationInput) (context : RuntimeContext) (c : Corresponds input context) where
  same_values : value_for input ≡ runtime_value_for context
  same_values = λ i field. value_for-runtime input context field c i

  rule-agrees :
      (rule : Rule)
      → rule.field == "" ≡ false
      → rule_matches input rule
        ≡ evaluate_condition rule.operator (runtime_value_for context rule.field) rule.value
  unfolding rule_matches
  rule-agrees rule named = rw (named, value_for-runtime input context rule.field c) refl

  legacy-agrees :
      (field operator value : Value)
      → names_field field ≡ true
      → legacy_matches input field operator value ≡ config_matches context field operator value
  legacy-agrees (str field) (str name) value named = elim (Option-cases (operator_named name)) [
    | inl e ↦ rw (e, legacy_matches, config_matches) refl
    | inr (o, e) ↦
        rw (e, legacy_matches, config_matches)
          (rule-agrees (record { field = field; operator = o; value = value })
            (ground (arith, named)))
  ]
  legacy-agrees _ _ value named = refl

  edge-agrees :
      (node : Node) (edge : Edge)
      → names_field (member "field" node.config) ≡ true
      → is_named edge ≡ true
      → edge_matches input node edge ≡ branch_matches context node edge
  unfolding edge_matches branch_matches
  edge-agrees node edge node_named named = elim (Option-cases edge.condition_group) [
    | inr (group, e) ↦ rw e (ap (evaluate_condition_group group) same_values)
    | inl e ↦ rw e (elim (Option-cases edge.condition) [
      | inr (rule, r) ↦ rw r (rule-agrees rule (ground (arith, named, r)))
      | inl r ↦ rw r (
          legacy-agrees (member "field" node.config) (member "operator" node.config)
            (member "value" node.config) node_named)
    ])
  ]

  edges-agree :
      (node : Node) (edges : List Edge)
      → names_field (member "field" node.config) ≡ true
      → All (λ e. is_named e ≡ true) edges
      → (find (edge_matches input node) edges ≡ find (branch_matches context node) edges)
        × (find (edge_matches input node) (configured edges)
            ≡ find (branch_matches context node) (configured edges))
  edges-agree node [] node_named named = (refl, refl)
  edges-agree node (e ∷ edges) node_named (here, named) =
      let (plain, filtered) = edges-agree node edges node_named named in
      let same = edge-agrees node e node_named here in
      (ground (arith, same, plain), ground (arith, same, filtered))

  -- An execution that has no variables (they are what the mappings of HTTP requests leave, and the
  -- simulation has none): where the node's configuration and the conditions of its branches name a
  -- field, a CONDITION node goes the same way in the worker and in a simulation that is given the same
  -- event, custom fields and contact.
  pub apply_condition-simulated :
      (node : Node) (edges : List Edge)
      → names_field (member "field" node.config) ≡ true
      → All (λ e. is_named e ≡ true) edges
      → (apply_condition context node edges).next
        ≡ select_condition input node (sort_by_priority edges)
  unfolding apply_condition matched_branch select_condition
  apply_condition-simulated node edges node_named named =
      let sorted = sort_by_priority edges in
      let (plain, filtered) =
        edges-agree node sorted node_named (All-sort (λ e. is_named e ≡ true) edges named) in
      elim (Bool-cases (is_legacy context node sorted)) [
        | inl legacy ↦ rw (legacy, plain) (or_else-none (find (branch_matches context node) sorted))
        | inr new ↦ rw (new, filtered) refl
      ]
