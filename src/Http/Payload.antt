-- ===== src/Http/Payload.antt =====
-- The body of a request: `renderJsonValue` and `compileBody` of packages/automation-http/src/index.ts.
-- Parameters are the language's texts of numbers and values, `JSON.stringify` and URLSearchParams.
use manychat.Prelude.{ℕ, ◌*◌, String, List, [], ◌∷◌, Option, none, some, ◌==◌, if◌then◌else◌}
use manychat.Prelude.Int.{ℤ}
use manychat.Value.{
  Value, undefined, null, bool, num, str, arr, obj, inherited, Items, no_items, item, Fields, end,
  field,
}
use manychat.Automation.HttpConfig.{HttpConfig, Method, ContentType}
use manychat.Http.Transport.{Result, throws, returns, permanent, next}
use manychat.Http.Template.{value_at, expression_at, render_scalar}

abbrev pub maximum_request_bytes : ℕ
maximum_request_bytes = 256 * 1024

module _ (number_text : ℤ → String) (variables : Value) where
  -- `exactTemplate`: the whole text is one expression.
  abbrev pub exact_path : String → Option String
  exact_path s = elim (expression_at s) [
    | none ↦ none
    | some (path, rest) ↦ if rest == "" then some path else none
  ]

  abbrev pub resolved : Value → Result Value
  resolved undefined = permanent "external_http_variable_missing"
  resolved v = returns v

  abbrev as_text : Result String → Result Value
  as_text (throws e) = throws e
  as_text (returns s) = returns (str s)

  abbrev pub render_text : String → Option String → Result Value
  render_text s (some path) = resolved (value_at variables path)
  render_text s none = as_text (render_scalar number_text s variables 65536)

  unfoldable mutual
    pub render_json_value : Value → Result Value
    render_json_value (str s) = render_text s (exact_path s)
    render_json_value (arr items) = next (render_items items) (λ rendered. returns (arr rendered))
    render_json_value (obj fields) =
        next (render_fields fields) (λ rendered. returns (obj rendered))
    render_json_value undefined = returns undefined
    render_json_value null = returns null
    render_json_value (bool b) = returns (bool b)
    render_json_value (num n) = returns (num n)
    render_json_value (inherited name) = returns (inherited name)

    pub render_items : Items → Result Items
    render_items no_items = returns no_items
    render_items (item v rest) =
        let later = render_items rest in
        next (render_json_value v) (λ w. next later (λ rendered. returns (item w rendered)))

    pub render_fields : Fields → Result Fields
    render_fields end = returns end
    render_fields (field key v rest) =
        let later = render_fields rest in
        next (render_json_value v) (λ w. next later (λ rendered. returns (field key w rendered)))

module _ (number_text : ℤ → String) (value_text json_text : Value → String)
    (form_text : List (String × String) → String) (variables : Value) where
  abbrev pub form_pairs : Fields → Result (List (String × String))
  form_pairs end = returns []
  form_pairs (field key v rest) =
      let later = form_pairs rest in
      next (render_scalar number_text (value_text v) variables 16384)
        (λ text. next later (λ pairs. returns ((key, text) ∷ pairs)))

  abbrev pub body_of : ContentType → Value → Result (Option String)
  body_of ContentType.json v =
      next (render_json_value number_text variables v) (λ w. returns (some (json_text w)))
  body_of ContentType.form_urlencoded (obj fields) =
      next (form_pairs fields) (λ pairs. returns (some (form_text pairs)))
  body_of ContentType.form_urlencoded _ = permanent "external_http_body_invalid"
  body_of ContentType.plain_text (str s) =
      next (render_scalar number_text s variables maximum_request_bytes)
        (λ text. returns (some text))
  body_of ContentType.plain_text _ = permanent "external_http_body_invalid"

  -- `config.body === undefined || config.method === 'GET'` has no body.
  abbrev pub body_unless_get : Method → ContentType → Value → Result (Option String)
  body_unless_get Method.get content_type v = returns none
  body_unless_get _ content_type undefined = returns none
  body_unless_get _ content_type v = body_of content_type v

  unfoldable pub compile_body : HttpConfig → Result (Option String)
  unfolding render_json_value
  compile_body config = body_unless_get config.method config.content_type config.body
