-- ===== src/Http/Compile.antt =====
-- `compileRequest` and `compileBody` of packages/automation-http/src/index.ts: the request that a
-- configuration makes. Parameters are the language's texts of numbers and values, `toLowerCase`,
-- `JSON.stringify`, the URL and URLSearchParams classes, and the project's secrets (`secretFor`).
pub mod Laws
pub mod Whole
mod Tests
use Prim.Native.Char.{code}
use manychat.Prelude.{
  ℕ, ◌*◌, String, Bool, true, false, not, ◌&&◌, ◌||◌, List, [], ◌∷◌, Option, none, some, nat_eq,
  ltb, has, insert, starts_with, utf8_length, ◌==◌, if◌then◌else◌,
}
use manychat.Prelude.Int.{ℤ}
use manychat.Value.{
  Value, undefined, null, bool, num, str, arr, obj, inherited, Items, no_items, item, Fields, end,
  field,
}
use manychat.Automation.HttpConfig.{Header, Query, HttpConfig, has_secret, Method, ContentType}
use manychat.Http.Transport.{ExternalHttpError, Result, throws, returns, permanent, next, Request}
use manychat.Http.Payload.{maximum_request_bytes, compile_body}
use manychat.Http.Template.{value_at, expression_at, render_scalar}

abbrev pub blocked_headers : List String
blocked_headers =
    "connection" ∷ "content-length" ∷ "forwarded" ∷ "host" ∷ "proxy-authorization"
    ∷ "proxy-connection" ∷ "te" ∷ "trailer" ∷ "transfer-encoding" ∷ "upgrade" ∷ "via" ∷ []

abbrev pub secret_only_headers : List String
secret_only_headers = "authorization" ∷ "cookie" ∷ "x-api-key" ∷ []

-- `blockedHeaders.has(normalized) || normalized.startsWith('x-forwarded-')`
unfoldable pub is_blocked_header : String → Bool
is_blocked_header normalized =
    has normalized blocked_headers || starts_with normalized "x-forwarded-"

-- `secretOnlyHeaders.has(normalized)`
unfoldable pub is_secret_only : String → Bool
is_secret_only normalized = has normalized secret_only_headers

-- `/\r|\n/.test(value)`
unfoldable pub has_line_break : String → Bool
has_line_break String.[] = false
has_line_break (String.◌∷◌ c s) = nat_eq (code c) 13 || nat_eq (code c) 10 || has_line_break s

abbrev pub method_name : Method → String
method_name Method.get = "GET"
method_name Method.post = "POST"
method_name Method.put = "PUT"
method_name Method.patch = "PATCH"
method_name Method.delete = "DELETE"

abbrev pub content_type_name : ContentType → String
content_type_name ContentType.json = "application/json"
content_type_name ContentType.form_urlencoded = "application/x-www-form-urlencoded"
content_type_name ContentType.plain_text = "text/plain"

abbrev text_or_empty : Option String → String
text_or_empty none = ""
text_or_empty (some s) = s

module _ (number_text : ℤ → String) (lower : String → String) (secret_for : String → Result String)
    (variables : Value) where
  unfoldable pub header_value : Header → Result String
  header_value header =
      if has_secret header.secret_id
      then secret_for (text_or_empty header.secret_id)
      else render_scalar number_text (text_or_empty header.value) variables 16384

  -- `headers[header.name] = value`, after the test for line breaks
  abbrev pub set_header : String → List (String × String) → String → Result (List (String × String))
  set_header name headers value =
      if has_line_break value
      then permanent "external_http_header_forbidden"
      else returns (insert name value headers)

  abbrev pub add_header : Header → List (String × String) → Result (List (String × String))
  add_header header headers =
      if is_blocked_header (lower header.name)
      then permanent "external_http_header_forbidden"
      else if is_secret_only (lower header.name) && not (has_secret header.secret_id)
      then permanent "external_http_secret_reference_required"
      else next (header_value header) (set_header header.name headers)

  -- The loop over `config.headers`.
  unfoldable pub compile_headers :
      List Header → List (String × String) → Result (List (String × String))
  compile_headers [] headers = returns headers
  compile_headers (header ∷ rest) headers = next (add_header header headers) (compile_headers rest)

-- What `compileRequest` throws besides: `new URL` throws an error of its own.
pub data Compiled : Type 0 where
  invalid_url : Compiled
  failed : ExternalHttpError → Compiled
  compiled : Request → Compiled

abbrev pub compiled_of : Result Request → Compiled
compiled_of (throws e) = failed e
compiled_of (returns request) = compiled request

module _ (number_text : ℤ → String) (value_text json_text : Value → String)
    (form_text : List (String × String) → String) (lower : String → String)
    (secret_for : String → Result String) (is_url : String → Bool)
    (with_query : String → List (String × String) → String) (variables : Value) where
  abbrev pub render_query : List Query → Result (List (String × String))
  render_query [] = returns []
  render_query (query ∷ rest) =
      let later = render_query rest in
      next (render_scalar number_text query.value variables 8192)
        (λ text. next later (λ pairs. returns ((query.name, text) ∷ pairs)))

  -- `if (body) { ... }`
  abbrev pub with_body :
      HttpConfig → String → List (String × String) → Option String → Result Request
  with_body config url headers none =
      returns
        (record { body = none; headers = headers; method = method_name config.method; url = url })
  with_body config url headers (some body) =
      if ltb maximum_request_bytes (utf8_length body)
      then permanent "external_http_request_too_large"
      else returns (record {
        body = some body;
        headers = insert "Content-Type" (content_type_name config.content_type) headers;
        method = method_name config.method;
        url = url;
      })

  abbrev pub after_headers : HttpConfig → String → List (String × String) → Result Request
  after_headers config url headers =
      next (compile_body number_text value_text json_text form_text variables config)
        (with_body config url headers)

  abbrev pub after_query : HttpConfig → String → String → List (String × String) → Result Request
  after_query config idempotency_key url_text pairs =
      next
        (compile_headers number_text lower secret_for variables config.headers
          (("Idempotency-Key", idempotency_key) ∷ []))
        (after_headers config (with_query url_text pairs))

  -- What follows once the URL is read.
  unfoldable pub compile_from : HttpConfig → String → String → Result Request
  unfolding compile_headers compile_body
  compile_from config idempotency_key url_text =
      next (render_query config.query) (after_query config idempotency_key url_text)

  abbrev pub from_url : HttpConfig → String → Result String → Compiled
  from_url config idempotency_key (throws e) = failed e
  from_url config idempotency_key (returns url_text) =
      if is_url url_text
      then compiled_of (compile_from config idempotency_key url_text)
      else invalid_url

  unfoldable pub compile_request : HttpConfig → String → Compiled
  unfolding compile_from
  compile_request config idempotency_key =
      from_url config idempotency_key (render_scalar number_text config.url variables 2048)
