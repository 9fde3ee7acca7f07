-- ===== src/Automation/HttpConfig.antt =====
-- The type that `externalHttpRequestConfigSchema` infers, and the tests of its own that the schema
-- makes (packages/automation-core/src/index.ts). The rest of the schema is the library zod's.
use manychat.Prelude.{
  ℕ, String, Bool, false, ◌&&◌, not, List, [], ◌∷◌, Option, none, some, has, all, split, is_some,
  ◌==◌, bool_ne,
}
use manychat.Value.{Value}
use manychat.Automation.Field.{is_dangerous}

pub data Method : Type 0 where
  get post put patch delete : Method

pub data ContentType : Type 0 where
  json form_urlencoded plain_text : ContentType

pub data ValueType : Type 0 where
  string number boolean json : ValueType

pub record Header : Type 0 where
  pub name : String
  pub secret_id : Option String
  pub value : Option String

-- `default_value` is `undefined` where the mapping has none.
pub record Mapping : Type 0 where
  pub default_value : Value
  pub required : Bool
  pub source_path : String
  pub target_path : String
  pub type : ValueType

pub record Query : Type 0 where
  pub name : String
  pub value : String

pub record HttpConfig : Type 0 where
  pub body : Value
  pub content_type : ContentType
  pub headers : List Header
  pub mappings : List Mapping
  pub max_attempts : ℕ
  pub method : Method
  pub query : List Query
  pub success_status_maximum : ℕ
  pub success_status_minimum : ℕ
  pub timeout_ms : ℕ
  pub url : String

-- `Boolean(header.secretId)`: a text that is there and not empty
unfoldable pub has_secret : Option String → Bool
has_secret none = false
has_secret (some id) = not (id == "")

-- `Header requires exactly one value or secretId`
unfoldable pub header_ok : Header → Bool
unfolding has_secret
header_ok header = bool_ne (has_secret header.secret_id) (is_some header.value)

abbrev pub reserved_external_http_mapping_roots : List String
reserved_external_http_mapping_roots =
    "contact" ∷ "conversation" ∷ "message" ∷ "nodes" ∷ "project" ∷ "trigger" ∷ "variables" ∷ []

-- `split` never gives an empty list.
abbrev root_of : List String → String
root_of [] = ""
root_of (part ∷ parts) = part

unfoldable pub source_path_ok : String → Bool
source_path_ok path = all (λ part. not (is_dangerous part)) (split b'.' path)

unfoldable pub target_path_ok : String → Bool
target_path_ok path =
    all (λ part. not (is_dangerous part)) (split b'.' path)
    && not (has (root_of (split b'.' path)) reserved_external_http_mapping_roots)
