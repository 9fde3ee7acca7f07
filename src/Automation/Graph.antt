-- ===== src/Automation/Graph.antt =====
-- The scenario graph after `scenarioGraphSchema` has parsed it (packages/automation-core/src/index.ts):
-- the types that the schemas infer. Parsing itself is the library zod's.
use manychat.Prelude.{ℕ, String, Bool, ◌||◌, List, Option, is_some}
use manychat.Prelude.Int.{ℤ}
use manychat.Value.{Value, Fields}

pub data NodeType : Type 0 where
  incoming_message condition add_tag remove_tag send_message send_template : NodeType
  create_or_update_lead forward_to_crm set_custom_field clear_custom_field : NodeType
  delay wait_for_reply start_subflow external_http_request : NodeType
  pause_automation resume_automation stop : NodeType

pub NodeType-discrete : Discrete NodeType
NodeType-discrete = hlevel

pub data Operator : Type 0 where
  equals not_equals contains starts_with ends_with : Operator
  greater_than greater_or_equal less_than less_or_equal : Operator
  exists not_exists : Operator

-- `value` is `undefined` where the rule has none.
pub record Rule : Type 0 where
  pub field : String
  pub operator : Operator
  pub value : Value

pub data Combinator : Type 0 where
  and or : Combinator

pub record Group : Type 0 where
  pub combinator : Combinator
  pub rules : List Rule

-- Coordinates in units of 2^-1074, as in `Value`.
pub record Position : Type 0 where
  pub x : ℤ
  pub y : ℤ

pub record Node : Type 0 where
  pub config : Fields
  pub id : String
  pub position : Position
  pub type : NodeType

pub record Edge : Type 0 where
  pub condition : Option Rule
  pub condition_group : Option Group
  pub from : String
  pub output : String
  pub priority : Option ℕ
  pub to : String

pub record Graph : Type 0 where
  pub edges : List Edge
  pub nodes : List Node

-- `edge.condition || edge.conditionGroup`
abbrev pub is_configured : Edge → Bool
is_configured e = is_some e.condition || is_some e.condition_group
