-- ===== src/Http/Compile/Tests.antt =====
-- Runs of the request that a configuration compiles to, and the theorems on it at inputs that meet
-- their hypotheses.
use manychat.Prelude.{
  split, includes, insert, utf8_length, eq_iff, ◌≢◌, utf16_length, String, ◌≡◌, refl, true, false,
  List, [], ◌∷◌, Bool, none, some, arith,
}
use manychat.Prelude.Int.{ℤ}
use manychat.Value.{Value, str, obj, end, field, own}
use manychat.Automation.Field.{value_at_path, walk, descend, is_dangerous}
use manychat.Automation.HttpConfig.{HttpConfig, Method, ContentType, has_secret}
use manychat.Http.Template.{span, expression_at, scalar_text, replace, render_scalar}
use manychat.Http.Payload.{render_json_value, compile_body}
use manychat.Http.Compile.{
  is_blocked_header, is_secret_only, has_line_break, header_value, compile_headers, compiled,
  compile_from, compile_request,
}
use manychat.Http.Compile.Whole.{Sendable, compile_request-Sendable}
use manychat.Http.Transport.{Result, returns, Request}
use manychat.Http.Body.{end}

-- Unfolds what the runs need.
compiling : Unit {0}
unfolding replace expression_at span scalar_text render_scalar value_at_path walk descend own
    is_dangerous split includes is_blocked_header is_secret_only has_line_break header_value
    compile_headers insert render_json_value compile_body compile_from compile_request utf8_length
    has_secret utf16_length
compiling = tt

abbrev numeral : ℤ → String
numeral n = "3"

abbrev same_text : Value → String
same_text v = "text"

abbrev same_form : List (String × String) → String
same_form pairs = "form"

abbrev unchanged : String → String
unchanged s = s

abbrev secret_of : String → Result String
secret_of id = returns "token"

abbrev any_url : String → Bool
any_url s = true

abbrev no_query : String → List (String × String) → String
no_query url pairs = url

abbrev named : Value
named = obj (field "name" (str "Ada") end)

abbrev call_config : HttpConfig
call_config = record {
  body = str "Hello {{name}}";
  content_type = ContentType.plain_text;
  headers =
      record { name = "authorization"; secret_id = some "s1"; value = none }
      ∷ record { name = "x-name"; secret_id = none; value = some "{{ name }}!" }
      ∷ [];
  mappings = [];
  max_attempts = 1;
  method = Method.post;
  query = [];
  success_status_maximum = 299;
  success_status_minimum = 200;
  timeout_ms = 10000;
  url = "https://example.com/{{name}}";
}

abbrev call : Request
call = record {
  body = some "Hello Ada";
  headers =
      ("Idempotency-Key", "k1")
      ∷ ("authorization", "token")
      ∷ ("x-name", "Ada!")
      ∷ ("Content-Type", "text/plain")
      ∷ [];
  method = "POST";
  url = "https://example.com/Ada";
}

call_compiled :
    compile_request numeral same_text same_text same_form unchanged secret_of any_url no_query named
      call_config "k1"
    ≡ compiled call
unfolding compiling
call_compiled = refl

headers_compiled :
    compile_headers numeral unchanged secret_of named call_config.headers
      (("Idempotency-Key", "k1") ∷ [])
    ≡ returns (("Idempotency-Key", "k1") ∷ ("authorization", "token") ∷ ("x-name", "Ada!") ∷ [])
unfolding compiling
headers_compiled = refl

name_not_empty : ◌≢◌ {A = String} "name" ""
name_not_empty = ground (arith, eq_iff "name" "")

hello_plain : includes "Hello" "{{" ≡ false
unfolding compiling
hello_plain = refl

hello_rendered : render_scalar numeral "Hello {{name}}" named 64 ≡ returns "Hello Ada"
unfolding compiling
hello_rendered = refl

key_whole : has_line_break "k1" ≡ false
unfolding compiling
key_whole = refl

key_allowed : is_blocked_header "Idempotency-Key" ≡ false
unfolding compiling
key_allowed = refl

type_allowed : is_blocked_header "Content-Type" ≡ false
unfolding compiling
type_allowed = refl

compile_request-Sendable_example :
    Sendable numeral same_text same_text same_form unchanged secret_of any_url no_query named call
compile_request-Sendable_example =
    compile_request-Sendable numeral same_text same_text same_form unchanged secret_of any_url
      no_query named call_config "k1" call call_compiled key_whole key_allowed type_allowed
