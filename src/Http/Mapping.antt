-- ===== src/Http/Mapping.antt =====
-- `executeExternalHttpRequest` of packages/automation-http/src/index.ts after the request is compiled:
-- the reading of the body, the mappings over shared objects, and the outcome.
pub mod Cycle
mod Tests
use manychat.Prelude.{
  ℕ, suc, String, Bool, true, false, not, ◌&&◌, List, [], ◌∷◌, Option, none, some, map, leb,
  includes, ◌==◌, if◌then◌else◌,
}
use manychat.Prelude.Int.{ℤ, pos}
use manychat.Value.{Value, undefined, null, bool, num, str, whole}
use manychat.Automation.HttpConfig.{Mapping, ValueType, HttpConfig}
use manychat.Http.Compile.{Compiled, invalid_url, failed, compiled}
use manychat.Http.Transport.{
  ExternalHttpError, permanent_failure, Result, throws, returns, permanent, next, Request, Response,
}
use manychat.Http.Heap.{
  Ref, plain, at, Heap, no_objects, allocate, load, value_at_ref, Setting, set_in, thrown_in,
  set_at,
}

-- The objects, and whether a mapping has failed so far.
pub record Progress : Type 0 where
  pub heap : Heap
  pub mapping_failed : Bool

pub data ResultOutcome : Type 0 where
  success failure : ResultOutcome

-- `ExternalHttpExecutionResult`, with the objects that it refers to.
pub record Executed : Type 0 where
  pub content_type : Option String
  pub payload : Ref
  pub mapped_variables : ℕ
  pub heap : Heap
  pub mapping_keys : List String
  pub outcome : ResultOutcome
  pub size_bytes : ℕ
  pub status_code : ℕ

-- How the call ends: `breaks` is an error that is no `ExternalHttpError`.
pub data Conclusion : Type 0 where
  executes : Executed → Conclusion
  throws_error : ExternalHttpError → Conclusion
  breaks : Conclusion

abbrev pub is_undefined : Ref → Bool
is_undefined (plain undefined) = true
is_undefined _ = false

-- What the mappings have by default, as objects of the parsed configuration.
unfoldable pub load_defaults : List Mapping → Heap → List (Mapping × Ref) × Heap
load_defaults [] h = ([], h)
load_defaults (m ∷ mappings) h =
    let (value, middle) = load m.default_value h in
    let (rest, after) = load_defaults mappings middle in ((m, value) ∷ rest, after)

-- Of the language: `JSON.parse`, `toLowerCase`, the text of a value (`none` where `JSON.stringify`
-- throws), `Number` where it is finite, and the number of bytes of a body.
module _ (parse_json : String → Option Value) (lower : String → String)
    (text_of : Heap → Ref → Option String) (number_of : Heap → Ref → Option ℤ)
    (byte_length : String → ℕ) where
  abbrev pub is_json : Option String → Bool
  is_json none = false
  is_json (some content_type) = includes (lower content_type) "json"

  abbrev pub parsed_or_null : Option Value → Value
  parsed_or_null none = null
  parsed_or_null (some v) = v

  unfoldable pub parse_response : String → Option String → Value
  parse_response body content_type =
      if is_json content_type then parsed_or_null (parse_json body) else str body

  abbrev pub to_text : Option String → Option Ref
  to_text none = none
  to_text (some s) = some (plain (str s))

  abbrev pub to_number : Option ℤ → Option Ref
  to_number none = none
  to_number (some n) = some (plain (num n))

  abbrev pub to_boolean : Ref → Option Ref
  to_boolean (plain (bool b)) = some (plain (bool b))
  to_boolean (plain (str s)) =
      if s == "true"
      then some (plain (bool true))
      else if s == "false"
      then some (plain (bool false))
      else none
  to_boolean _ = none

  -- `none` is a conversion that throws.
  unfoldable pub convert_value : Heap → Ref → ValueType → Option Ref
  convert_value h value ValueType.json = some value
  convert_value h value ValueType.string = to_text (text_of h value)
  convert_value h value ValueType.number = to_number (number_of h value)
  convert_value h value ValueType.boolean = to_boolean value

  -- `{ response: { data, status } }`: the address is that of the outer object.
  abbrev pub response_object : Ref → ℕ → Heap → Heap
  response_object payload status h =
      let inner = allocate (("data", payload) ∷ ("status", plain (whole status)) ∷ []) h in
      allocate (("response", at h.next) ∷ []) inner

  abbrev pub set_or_fail : Bool → Setting → Progress
  set_or_fail before (set_in h) = record { heap = h; mapping_failed = before }
  set_or_fail before (thrown_in h) = record { heap = h; mapping_failed = true }

  abbrev pub store : ℕ → String → Option Ref → Progress → Progress
  store target path none s = record s { mapping_failed = true }
  store target path (some value) s = set_or_fail s.mapping_failed (set_at target path value s.heap)

  -- What follows once the value of a mapping is known.
  abbrev pub map_value : ℕ → Mapping → Ref → Progress → Progress
  map_value target m value s =
      if is_undefined value
      then (if m.required then record s { mapping_failed = true } else s)
      else store target m.target_path (convert_value s.heap value m.type) s

  unfoldable pub map_one : Ref → ℕ → ℕ → Mapping × Ref → Progress → Progress
  unfolding convert_value
  map_one payload status target (m, default_value) s =
      let h = response_object payload status s.heap in
      let source = value_at_ref h (at (suc s.heap.next)) m.source_path in
      map_value target m (if is_undefined source then default_value else source)
        (record s { heap = h })

  unfoldable pub map_all : Ref → ℕ → ℕ → List (Mapping × Ref) → Progress → Progress
  map_all payload status target [] s = s
  map_all payload status target (m ∷ mappings) s =
      map_all payload status target mappings (map_one payload status target m s)

  abbrev pub status_succeeded : HttpConfig → ℕ → Bool
  status_succeeded config status =
      leb config.success_status_minimum status && leb status config.success_status_maximum

  abbrev pub outcome_of : Bool → Bool → ResultOutcome
  outcome_of status_ok mapping_failed = if status_ok && not mapping_failed then success else failure

  -- What `executeExternalHttpRequest` makes of the response.
  unfoldable pub executed : HttpConfig → Response → Executed
  unfolding load load_defaults parse_response map_all
  executed config response =
      let (mappings, h0) = load_defaults config.mappings no_objects in
      let (payload, h1) = load (parse_response response.body response.content_type) h0 in
      let s =
        map_all payload response.status_code h1.next mappings
          (record { heap = allocate [] h1; mapping_failed = false }) in
      record {
        content_type = response.content_type;
        payload = payload;
        mapped_variables = h1.next;
        heap = s.heap;
        mapping_keys = map (λ (m : Mapping). m.target_path) config.mappings;
        outcome = outcome_of (status_succeeded config response.status_code) s.mapping_failed;
        size_bytes = byte_length response.body;
        status_code = response.status_code;
      }

  abbrev pub execute_compiled : HttpConfig → Compiled → (Request → Result Response) → Conclusion
  execute_compiled config invalid_url send = breaks
  execute_compiled config (failed e) send = throws_error e
  execute_compiled config (compiled request) send = elim (send request) [
    | throws e ↦ throws_error e
    | returns response ↦ executes (executed config response)
  ]

  -- `config` is what the schema makes of the configuration, `compile` and `send` are `compileRequest`
  -- and `transport`.
  unfoldable pub execute_external_http_request :
      Option HttpConfig → (HttpConfig → Compiled) → (Request → Result Response) → Conclusion
  unfolding executed
  execute_external_http_request none compile send =
      throws_error
        (record { outcome = permanent_failure; safe_code = "external_http_config_invalid" })
  execute_external_http_request (some config) compile send =
      execute_compiled config (compile config) send
