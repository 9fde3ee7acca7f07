-- ===== src/Runtime/Effects.antt =====
-- The nodes of `applyNode` (apps/worker/src/automation/automation-runtime.service.ts) that write and go
-- on: custom fields, tags, the automation's switch, messages and CRM operations.
use manychat.Prelude.{
  ℕ, String, Bool, true, false, not, ◌&&◌, ◌∷◌, Option, none, some, any, filter, has, insert, ◌==◌,
  if◌then◌else◌,
}
use manychat.Value.{Value, str, obj, Fields, member, with_member}
use manychat.Automation.Graph.{Node}
use manychat.Runtime.Rows.{
  CrmOperation, CrmOperationType, Contact, returns, Action, pure, throw, ◌>>◌, check, of_crm,
  of_message, create_once,
}
use manychat.Runtime.Project.{
  CustomFieldDefinition, RuntimeContext, Project, object, is_custom_field_value_valid,
  without_member,
}

-- `typeof value === 'string' ? value : undefined`, and the test for the empty text
abbrev pub text_of : Value → Option String
text_of (str s) = if s == "" then none else some s
text_of _ = none

abbrev pub write_contact : (Contact → Contact) → Action (Unit {0})
write_contact f rows = returns tt (record rows { contact = f rows.contact })

module _ (p : Project) (now : ℕ) where
  abbrev pub with_custom_fields : Fields → RuntimeContext → RuntimeContext
  with_custom_fields fields context = record context { custom_fields = obj fields }

  abbrev pub write_field :
      Node → String → Option CustomFieldDefinition → RuntimeContext → Action RuntimeContext
  write_field node key none context = throw "automation_custom_field_invalid"
  write_field node key (some definition) context = do
    let value = member "value" node.config
    let fields = with_member key value (object context.custom_fields)
    check (is_custom_field_value_valid p.parses_as_date definition.type value definition.options)
        "automation_custom_field_invalid"
    write_contact (λ c. record c {
      custom_fields = obj fields;
      field_values = insert definition.id value c.field_values;
    })
    pure (with_custom_fields fields context)

  abbrev pub drop_field :
      String → Option CustomFieldDefinition → RuntimeContext → Action RuntimeContext
  drop_field key none context = throw "automation_custom_field_invalid"
  drop_field key (some definition) context = do
    let fields = without_member key (object context.custom_fields)
    write_contact (λ c. record c {
      custom_fields = obj fields;
      field_values = filter (λ v. not (v.0 == definition.id)) c.field_values;
    })
    pure (with_custom_fields fields context)

  abbrev pub with_key :
      (String → RuntimeContext → Action RuntimeContext)
      → Option String
      → RuntimeContext
      → Action RuntimeContext
  with_key f none context = throw "automation_custom_field_invalid"
  with_key f (some key) context = f key context

  unfoldable pub apply_set_field : Node → RuntimeContext → Action RuntimeContext
  apply_set_field node =
      with_key (λ key. write_field node key (p.field_definition key))
        (text_of (member "key" node.config))

  unfoldable pub apply_clear_field : Node → RuntimeContext → Action RuntimeContext
  apply_clear_field node =
      with_key (λ key. drop_field key (p.field_definition key)) (text_of (member "key" node.config))

  abbrev pub set_automation : Bool → Action (Unit {0})
  set_automation enabled = write_contact (λ c. record c { automation_enabled = enabled })

  abbrev pub write_tag : Bool → Option String → Action (Unit {0})
  write_tag adding none = throw "automation_tag_invalid"
  write_tag adding (some tag) = do
    check (p.has_tag tag) "automation_tag_invalid"
    write_contact (λ c. record c {
      tags =
          if not adding
          then filter (λ t. not (t == tag)) c.tags
          else if has tag c.tags
          then c.tags
          else tag ∷ c.tags;
    })

  unfoldable pub apply_tag : Bool → Node → Action (Unit {0})
  apply_tag adding node = write_tag adding (text_of (member "tagId" node.config))

  abbrev pub refuse : Option String → Action (Unit {0})
  refuse none = pure tt
  refuse (some e) = throw e

  -- `queueMessage`, from the search for the outbox record on
  unfoldable pub queue_message : String → Node → RuntimeContext → Action (Unit {0})
  queue_message execution node context = do
    refuse (p.message_refusal node context)
    λ rows. returns tt (record rows {
      messages =
          create_once (of_message execution node.id)
            (record { scenario_execution_id = execution; node_id = node.id }) rows.messages;
    })

  abbrev pub is_forward : CrmOperationType → Bool
  is_forward CrmOperationType.create_or_update_lead = false
  is_forward CrmOperationType.forward_inbound_message = true

  abbrev pub forwards : String → CrmOperation → Bool
  forwards event o = o.normalized_event_id == event && is_forward o.type

  unfoldable pub queue_crm_operation :
      CrmOperationType → String → Node → RuntimeContext → Action (Unit {0})
  queue_crm_operation type execution node context rows =
      if is_forward type && any (forwards context.normalized_event_id) rows.crm_operations
      then returns tt rows
      else returns tt (record rows {
        crm_operations =
            create_once (of_crm execution node.id)
              (record {
                scenario_execution_id = execution;
                node_id = node.id;
                normalized_event_id = context.normalized_event_id;
                type = type;
              })
              rows.crm_operations;
      })
