-- ===== src/Runtime/Project.antt =====
-- What apps/worker/src/automation/automation-runtime.service.ts reads and does not write, the context
-- of a run, and the checks of a custom field.
use manychat.Prelude.{
  ℕ, String, Bool, true, false, ◌&&◌, ◌||◌, List, [], ◌∷◌, Option, all, leb, nat_eq, code, ◌==◌,
  if◌then◌else◌,
}
use manychat.Value.{Value, null, bool, num, str, obj, arr, Fields, end, field, items}
use manychat.Automation.Graph.{Node, Graph}
use manychat.Automation.Issue.{Schemas}
use manychat.Runtime.Rows.{TriggerKey}

pub data CustomFieldType : Type 0 where
  text number boolean date datetime json select multi_select : CustomFieldType

pub record CustomFieldDefinition : Type 0 where
  pub id : String
  pub type : CustomFieldType
  pub options : Value

pub record RuntimeContext : Type 0 where
  pub normalized_event_id : String
  pub contact_variables : Fields
  pub custom_fields : Value
  pub event_payload : Value
  pub variables : Value
  pub subflow_depth : ℕ

-- `definition` is the compiled definition of a version: `some none` where the schema refuses it.
-- `is_published` says of a scenario and a version that both are there and the version is published or
-- superseded. `message_refusal` is the error of `queueMessage` before it looks for the outbox record,
-- `new_execution_id` (of a scenario and a trigger's key) and `new_row_id` (of an execution and a node) are
-- the identifiers that the database makes.
pub record Project : Type 0 where
  pub schemas : Schemas
  pub published_scenarios : List (String × String)
  pub is_published : String → String → Bool
  pub definition : String → Option (Option Graph)
  pub event_payload : String → Option Value
  pub automation_mode_override : Option Bool
  pub field_definition : String → Option CustomFieldDefinition
  pub has_tag : String → Bool
  pub message_refusal : Node → RuntimeContext → Option String
  pub parses_as_date : String → Bool
  pub new_execution_id : String → TriggerKey → String
  pub new_row_id : String → String → String

-- `this.object(value)`
abbrev pub object : Value → Fields
object (obj fields) = fields
object _ = end

abbrev is_digit : ℕ → Bool
is_digit c = leb 48 c && leb c 57

abbrev is_dash : ℕ → Bool
is_dash c = nat_eq c 45

-- The text has as many characters as there are tests, and each passes its own.
unfoldable pub has_shape : List (ℕ → Bool) → String → Bool
has_shape [] String.[] = true
has_shape (test ∷ tests) (String.◌∷◌ c s) = test (code c) && has_shape tests s
has_shape _ _ = false

-- `/^\d{4}-\d{2}-\d{2}$/`
abbrev pub date_shape : List (ℕ → Bool)
date_shape =
    is_digit ∷ is_digit ∷ is_digit ∷ is_digit ∷ is_dash ∷ is_digit ∷ is_digit ∷ is_dash ∷ is_digit
    ∷ is_digit ∷ []

unfoldable pub includes_value : String → List Value → Bool
includes_value s [] = false
includes_value s (str t ∷ values) = t == s || includes_value s values
includes_value s (_ ∷ values) = includes_value s values

-- `Array.isArray(options) ? options : []`
abbrev pub allowed_of : Value → List Value
allowed_of (arr values) = items values
allowed_of _ = []

abbrev pub is_allowed : List Value → Value → Bool
is_allowed allowed (str s) = includes_value s allowed
is_allowed allowed _ = false

unfoldable pub is_custom_field_value_valid :
    (String → Bool) → CustomFieldType → Value → Value → Bool
unfolding has_shape includes_value
is_custom_field_value_valid parses_as_date _ null options = true
is_custom_field_value_valid parses_as_date text (str s) options = true
is_custom_field_value_valid parses_as_date number (num n) options = true
is_custom_field_value_valid parses_as_date boolean (bool b) options = true
is_custom_field_value_valid parses_as_date date (str s) options = has_shape date_shape s
is_custom_field_value_valid parses_as_date datetime (str s) options = parses_as_date s
is_custom_field_value_valid parses_as_date json (obj fields) options = true
is_custom_field_value_valid parses_as_date json (arr values) options = true
is_custom_field_value_valid parses_as_date select (str s) options =
    includes_value s (allowed_of options)
is_custom_field_value_valid parses_as_date multi_select (arr values) options =
    all (is_allowed (allowed_of options)) (items values)
is_custom_field_value_valid parses_as_date _ _ options = false

-- `delete object[key]`
unfoldable pub without_member : String → Fields → Fields
without_member key end = end
without_member key (field k v rest) =
    let behind = without_member key rest in if k == key then rest else field k v behind
