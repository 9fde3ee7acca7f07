-- ===== src/Automation/Issue.antt =====
-- The messages of `validateScenarioGraph` (packages/automation-core/src/index.ts), and the parsers that
-- it is given. An issue stands for the message of the source with its parameters.
use manychat.Prelude.{String, Bool, List, [], ◌∷◌, Option, if◌then◌else◌}
use manychat.Value.{Value, Fields}
use manychat.Automation.Graph.{Edge}
use manychat.Automation.HttpConfig.{HttpConfig}
use manychat.Automation.Reply.{Criteria}

pub data Issue : Type 0 where
  schema_issue : String → Issue
  unknown_node comparison_value_required two_condition_formats : Edge → Issue
  trigger_count trigger_without_path unguarded_cycle : Issue
  multiple_connections : (id port : String) → Issue
  priority_required duplicate_priorities multiple_fallbacks : String → Issue
  delay_seconds_invalid timeout_seconds_invalid reply_criteria_invalid : String → Issue
  tag_required custom_field_required subflow_unpinned : String → Issue
  template_unpinned templates_mixed : String → Issue
  text_required target_unsupported telegram_connection_required : String → Issue
  whatsapp_connection_required : String → Issue
  http_config_invalid http_status_range_invalid http_paths_required : String → Issue
  unreachable : String → Issue

-- `if (test) errors.push(issue)`
abbrev pub report : Bool → Issue → List Issue
report test issue = if test then issue ∷ [] else []

-- The results of `safeParse` on the schemas that the validation uses.
pub record Schemas : Type 0 where
  pub criteria_contract : Value → Option Criteria
  pub whatsapp_template : Value → Bool
  pub external_http : Fields → Option HttpConfig
