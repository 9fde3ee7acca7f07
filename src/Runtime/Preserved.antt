-- ===== src/Runtime/Preserved.antt =====
-- Every method of apps/worker/src/automation/automation-runtime.service.ts keeps what may be shown
-- of delayed actions and waits: what a node does.
use manychat.Prelude.{
  ℕ, String, Bool, true, false, ◌&&◌, List, Option, none, some, any, is_some, leb, inl, inr,
  Bool-cases, Option-cases,
}
use manychat.Value.{member, is_positive_integer, coalesce, obj, end}
use manychat.Automation.Reply.{preprocess}
use manychat.Automation.Simulate.{default_edge}
use manychat.Automation.Graph.{
  NodeType, incoming_message, condition, add_tag, remove_tag, send_message, send_template,
  create_or_update_lead, forward_to_crm, set_custom_field, clear_custom_field, delay,
  wait_for_reply, start_subflow, external_http_request, pause_automation, resume_automation, stop,
  Node, Edge, Graph,
}
use manychat.Automation.HttpConfig.{HttpConfig}
use manychat.Runtime.Rows.{
  ScenarioExecution, CrmOperationType, Rows, Completion, exhausted, throws, returns, Action,
  continue, ◌>>=◌, check, is_ended,
}
use manychat.Runtime.Project.{
  is_custom_field_value_valid, CustomFieldDefinition, RuntimeContext, Project,
}
use manychat.Runtime.Condition.{NodeResult}
use manychat.Runtime.Effects.{
  apply_set_field, apply_clear_field, apply_tag, queue_message, queue_crm_operation, with_key,
  write_field, drop_field, write_tag, refuse, text_of, is_forward, forwards,
}
use manychat.Runtime.Suspend.{
  to_of, apply_delay, apply_wait, queue_external_http_operation, queue_request,
}
use manychat.Runtime.Node.{
  keeping, then_default, awaits, apply_node, apply_subflow, start_pinned, start_version, run_child,
  upsert_execution,
}
use manychat.Runtime.Lifecycle.{Property, Holds, Leaves, continue-Leaves, KeptByNodes}

module _ (J : Property) where
  abbrev pub Preserves : {A : Type 0} → Action A → Type 0
  Preserves m = (rows : Rows) → Holds J rows → Leaves J (m rows)

  pub then-Preserves :
      {A B : Type 0} (m : Action A) (f : A → Action B)
      → Preserves m
      → ((a : A) → Preserves (f a))
      → Preserves (m >>= f)
  then-Preserves m f h k rows u =
      continue-Leaves J J (m rows) f (h rows u) (λ a after v. k a after v)

  check-Preserves : (b : Bool) (e : String) → Preserves (check b e)
  check-Preserves true e rows u = u
  check-Preserves false e rows u = tt

  refuse-Preserves : (p : Project) (now : ℕ) (o : Option String) → Preserves (refuse p now o)
  refuse-Preserves p now none rows u = u
  refuse-Preserves p now (some e) rows u = tt

  then-pure :
      {B : Type 0} (c : Completion (Unit {0})) (b : B)
      → Leaves J c
      → Leaves J (continue c (λ a rows. returns b rows))
  then-pure exhausted b h = tt
  then-pure (throws e) b h = tt
  then-pure (returns a rows) b h = h

  with-context :
      (c : Completion NodeResult) (context : RuntimeContext)
      → Leaves J c
      → Leaves J (continue c (keeping context))
  with-context exhausted context h = tt
  with-context (throws e) context h = tt
  with-context (returns a rows) context h = h

  with-default :
      (c : Completion RuntimeContext) (edges : List Edge)
      → Leaves J c
      → Leaves J (continue c (then_default edges))
  with-default exhausted edges h = tt
  with-default (throws e) edges h = tt
  with-default (returns a rows) edges h = h

  module _ (p : Project) (now : ℕ) (kept : KeptByNodes p J) where
    apply_delay-Preserves :
        (execution : String) (node : Node) (edges : List Edge)
        → Preserves (apply_delay p now execution node edges)
    unfolding apply_delay
    apply_delay-Preserves execution node edges rows u =
        elim (Bool-cases (is_positive_integer (member "delaySeconds" node.config))) [
          | inl e ↦ rw e (
              kept.delays now execution node (to_of (default_edge edges)) rows.delayed_actions
                rows.wait_states u)
          | inr e ↦ rw e tt
        ]

    apply_wait-Preserves :
        (execution : String) (node : Node) (edges : List Edge)
        → Preserves (apply_wait p now execution node edges)
    unfolding apply_wait
    apply_wait-Preserves execution node edges rows u =
        elim (Bool-cases (is_positive_integer (member "timeoutSeconds" node.config))) [
          | inr e ↦ rw e tt
          | inl e ↦
              rw e
                (elim (Bool-cases (
                  is_some (
                    p.schemas.criteria_contract
                      (preprocess (coalesce (member "criteria" node.config) (obj end)))))) [
                        | inr d ↦ rw d tt
                        | inl d ↦ rw d (
                            kept.waits now execution node edges rows.delayed_actions
                              rows.wait_states u)
                      ])
        ]

    queue_request-Preserves :
        (execution : String) (node : Node) (edges : List Edge) (config : Option HttpConfig)
        → Preserves (queue_request p now execution node edges config)
    queue_request-Preserves execution node edges none rows u = tt
    queue_request-Preserves execution node edges (some config) rows u = u

    write_field-Preserves :
        (node : Node) (key : String) (o : Option CustomFieldDefinition) (context : RuntimeContext)
        → Preserves (write_field p now node key o context)
    write_field-Preserves node key none context rows u = tt
    write_field-Preserves node key (some definition) context rows u =
        elim (Bool-cases (
          is_custom_field_value_valid p.parses_as_date definition.type (member "value" node.config)
            definition.options)) [ inl e ↦ rw e u | inr e ↦ rw e tt ]

    drop_field-Preserves :
        (key : String) (o : Option CustomFieldDefinition) (context : RuntimeContext)
        → Preserves (drop_field p now key o context)
    drop_field-Preserves key none context rows u = tt
    drop_field-Preserves key (some definition) context rows u = u

    with_key-Preserves :
        (f : String → RuntimeContext → Action RuntimeContext) (o : Option String)
        (context : RuntimeContext)
        → ((key : String) → Preserves (f key context))
        → Preserves (with_key p now f o context)
    with_key-Preserves f none context h rows u = tt
    with_key-Preserves f (some key) context h rows u = h key rows u

    write_tag-Preserves : (adding : Bool) (o : Option String) → Preserves (write_tag p now adding o)
    write_tag-Preserves adding none rows u = tt
    write_tag-Preserves adding (some tag) rows u = elim (Bool-cases (p.has_tag tag)) [
      | inl e ↦ rw e u
      | inr e ↦ rw e tt
    ]

    queue_message-Preserves :
        (execution : String) (node : Node) (context : RuntimeContext)
        → Preserves (queue_message p now execution node context)
    unfolding queue_message
    queue_message-Preserves execution node context rows u =
        elim (Option-cases (p.message_refusal node context)) [
          | inl e ↦ rw e u
          | inr (r, e) ↦ rw e tt
        ]

    queue_crm-Preserves :
        (type : CrmOperationType) (execution : String) (node : Node) (context : RuntimeContext)
        → Preserves (queue_crm_operation p now type execution node context)
    unfolding queue_crm_operation
    queue_crm-Preserves type execution node context rows u =
        elim (Bool-cases (
          is_forward p now type
          && any (forwards p now context.normalized_event_id) rows.crm_operations)) [
            | inl e ↦ rw e u
            | inr e ↦ rw e u
          ]

    module _ (call : Graph → String → RuntimeContext → Option String → Action (Unit {0}))
        (calls : (graph : Graph) (id : String) (context : RuntimeContext) (start : Option String)
          → Preserves (call graph id context start)) where
      run_child-Preserves :
          (o : Option Graph) (child : ScenarioExecution) (context : RuntimeContext)
          → Preserves (run_child p now call o child context)
      run_child-Preserves none child context rows u = tt
      run_child-Preserves (some graph) child context rows u =
          elim (Bool-cases (is_ended child.status)) [
            | inl e ↦ rw e u
            | inr e ↦ rw e (calls graph child.id _ none rows u)
          ]

      start_version-Preserves :
          (execution : String) (node : Node) (edges : List Edge) (context : RuntimeContext)
          (scenario version : String) (o : Option (Option Graph))
          → Preserves (start_version p now call execution node edges context scenario version o)
      unfolding upsert_execution
      start_version-Preserves execution node edges context scenario version none rows u = tt
      start_version-Preserves execution node edges context scenario version (some graph) rows u =
          elim (Bool-cases (p.is_published scenario version)) [
            | inr e ↦ rw e tt
            | inl e ↦ rw e (elim (Bool-cases (awaits p now call (member "await" node.config))) [
              | inl w ↦ rw w (then-pure _ _ (run_child-Preserves graph _ context _ u))
              | inr w ↦ rw w (then-pure _ _ (run_child-Preserves graph _ context _ u))
            ])
          ]

      start_pinned-Preserves :
          (execution : String) (node : Node) (edges : List Edge) (context : RuntimeContext)
          (scenario version : Option String)
          → Preserves (start_pinned p now call execution node edges context scenario version)
      start_pinned-Preserves execution node edges context (some scenario) (some version) rows u =
          elim (Bool-cases (leb 10 context.subflow_depth)) [
            | inl e ↦ rw e tt
            | inr e ↦ rw e (
                start_version-Preserves execution node edges context scenario version
                  (p.definition version) rows u)
          ]
      start_pinned-Preserves execution node edges context (some scenario) none rows u = tt
      start_pinned-Preserves execution node edges context none version rows u = tt

      pub apply_node-Preserves :
          (type : NodeType) (execution : String) (node : Node) (edges : List Edge)
          (context : RuntimeContext)
          → Preserves (apply_node p now call type execution node edges context)
      unfolding apply_node apply_subflow apply_set_field apply_clear_field apply_tag
          queue_external_http_operation
      apply_node-Preserves stop execution node edges context rows u = u
      apply_node-Preserves condition execution node edges context rows u = u
      apply_node-Preserves incoming_message execution node edges context rows u = u
      apply_node-Preserves pause_automation execution node edges context rows u = u
      apply_node-Preserves resume_automation execution node edges context rows u = u
      apply_node-Preserves delay execution node edges context rows u =
          with-context _ context (apply_delay-Preserves execution node edges rows u)
      apply_node-Preserves wait_for_reply execution node edges context rows u =
          with-context _ context (apply_wait-Preserves execution node edges rows u)
      apply_node-Preserves start_subflow execution node edges context rows u =
          with-context _ context (
            start_pinned-Preserves execution node edges context
              (text_of (member "scenarioId" node.config))
              (text_of (member "scenarioVersionId" node.config)) rows u)
      apply_node-Preserves external_http_request execution node edges context rows u =
          with-context _ context (
            queue_request-Preserves execution node edges (p.schemas.external_http node.config) rows
              u)
      apply_node-Preserves set_custom_field execution node edges context rows u =
          with-default _ edges (
            with_key-Preserves (λ key. write_field p now node key (p.field_definition key))
              (text_of (member "key" node.config)) context
              (λ key. write_field-Preserves node key (p.field_definition key) context) rows u)
      apply_node-Preserves clear_custom_field execution node edges context rows u =
          with-default _ edges (
            with_key-Preserves (λ key. drop_field p now key (p.field_definition key))
              (text_of (member "key" node.config)) context
              (λ key. drop_field-Preserves key (p.field_definition key) context) rows u)
      apply_node-Preserves add_tag execution node edges context rows u =
          then-pure _ _ (write_tag-Preserves true (text_of (member "tagId" node.config)) rows u)
      apply_node-Preserves remove_tag execution node edges context rows u =
          then-pure _ _ (write_tag-Preserves false (text_of (member "tagId" node.config)) rows u)
      apply_node-Preserves send_message execution node edges context rows u =
          then-pure _ _ (queue_message-Preserves execution node context rows u)
      apply_node-Preserves send_template execution node edges context rows u =
          then-pure _ _ (queue_message-Preserves execution node context rows u)
      apply_node-Preserves create_or_update_lead execution node edges context rows u =
          then-pure _ _ (
            queue_crm-Preserves CrmOperationType.create_or_update_lead execution node context rows
              u)
      apply_node-Preserves forward_to_crm execution node edges context rows u = then-pure _ _ (
          queue_crm-Preserves CrmOperationType.forward_inbound_message execution node context rows
            u)
