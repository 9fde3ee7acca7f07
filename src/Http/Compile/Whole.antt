-- ===== src/Http/Compile/Whole.antt =====
-- What holds of every request that `compileRequest` makes.
use manychat.Prelude.{
  ◌≤◌, String, ◌≡◌, refl, inl, inr, Bool, false, List, [], ◌∷◌, Option, none, some, All, ltb,
  utf8_length, arith, Bool-cases,
}
use manychat.Prelude.Int.{ℤ}
use manychat.Value.{Value}
use manychat.Automation.HttpConfig.{HttpConfig, ContentType}
use manychat.Http.Transport.{Result, throws, returns, Request}
use manychat.Http.Transport.Laws.{Result-cases, returns-eq}
use manychat.Http.Template.{render_scalar}
use manychat.Http.Payload.{maximum_request_bytes, compile_body}
use manychat.Http.Compile.{
  is_blocked_header, has_line_break, content_type_name, compile_headers, compiled, compiled_of,
  compile_from, compile_request, render_query, with_body, after_headers, after_query,
}
use manychat.Http.Compile.Laws.{next-returns, Allowed, insert-Allowed, compile_headers-Allowed}

-- The body is there and at most so long, or there is none.
abbrev pub Short : Option String → Type 0
Short none = Unit {0}
Short (some body) = utf8_length body ≤ maximum_request_bytes

whole_content_type : (t : ContentType) → has_line_break (content_type_name t) ≡ false
unfolding has_line_break
whole_content_type ContentType.json = refl
whole_content_type ContentType.form_urlencoded = refl
whole_content_type ContentType.plain_text = refl

request_of_compiled :
    (r : Result Request) (request : Request)
    → compiled_of r ≡ compiled request
    → r ≡ returns request
request_of_compiled (throws e) request h = cc
request_of_compiled (returns a) request h = cc

module _ (number_text : ℤ → String) (value_text json_text : Value → String)
    (form_text : List (String × String) → String) (lower : String → String)
    (secret_for : String → Result String) (is_url : String → Bool)
    (with_query : String → List (String × String) → String) (variables : Value) where
  -- The request may be sent: its headers keep the policy, its body is short.
  pub record Sendable (request : Request) : Type 0 where
    pub headers : All (Allowed lower) request.headers
    pub body : Short request.body

  with_body-Sendable :
      (config : HttpConfig) (url : String) (headers : List (String × String)) (body : Option String)
      (request : Request)
      → with_body number_text value_text json_text form_text lower secret_for is_url with_query
          variables config url headers body
        ≡ returns request
      → is_blocked_header (lower "Content-Type") ≡ false
      → All (Allowed lower) headers
      → Sendable request
  with_body-Sendable config url headers none request h fine ok =
      rw (← returns-eq h) (record { headers = ok; body = tt })
  with_body-Sendable config url headers (some body) request h fine ok =
      elim (Bool-cases (ltb maximum_request_bytes (utf8_length body))) [
        | inl long ↦ cc (rw long at h)
        | inr short ↦
            let same = returns-eq (rw short at h) in
            rw (← same) (record {
              headers =
                  insert-Allowed lower _ _ headers (fine, whole_content_type config.content_type)
                    ok;
              body = ground arith;
            })
      ]

  compile_from-Sendable :
      (config : HttpConfig) (idempotency_key url : String) (request : Request)
      → compile_from number_text value_text json_text form_text lower secret_for is_url with_query
          variables config idempotency_key url
        ≡ returns request
      → has_line_break idempotency_key ≡ false
      → is_blocked_header (lower "Idempotency-Key") ≡ false
      → is_blocked_header (lower "Content-Type") ≡ false
      → Sendable request
  unfolding compile_from
  compile_from-Sendable config idempotency_key url request h whole key type =
      let (pairs, rendered, a) =
        next-returns
          (render_query number_text value_text json_text form_text lower secret_for is_url
            with_query variables config.query)
          (after_query number_text value_text json_text form_text lower secret_for is_url with_query
            variables config idempotency_key url)
          request h in
      let (headers, made, b) =
        next-returns
          (compile_headers number_text lower secret_for variables config.headers
            (("Idempotency-Key", idempotency_key) ∷ []))
          (after_headers number_text value_text json_text form_text lower secret_for is_url
            with_query variables config (with_query url pairs))
          request a in
      let (body, filled, c) =
        next-returns (compile_body number_text value_text json_text form_text variables config)
          (with_body number_text value_text json_text form_text lower secret_for is_url with_query
            variables config (with_query url pairs) headers)
          request b in
      with_body-Sendable config (with_query url pairs) headers body request c type (
        compile_headers-Allowed number_text lower secret_for variables config.headers
          (("Idempotency-Key", idempotency_key) ∷ []) headers made ((key, whole), tt))

  -- A request that is compiled has no blocked header, no header value with a line break, and a body of
  -- at most 256 * 1024 bytes, whatever the configuration and the variables, if the idempotency key has no line
  -- break and `toLowerCase` does not make blocked names of `Idempotency-Key` and `Content-Type`.
  pub compile_request-Sendable :
      (config : HttpConfig) (idempotency_key : String) (request : Request)
      → compile_request number_text value_text json_text form_text lower secret_for is_url
          with_query variables config idempotency_key
        ≡ compiled request
      → has_line_break idempotency_key ≡ false
      → is_blocked_header (lower "Idempotency-Key") ≡ false
      → is_blocked_header (lower "Content-Type") ≡ false
      → Sendable request
  unfolding compile_request
  compile_request-Sendable config idempotency_key request h whole key type =
      elim (Result-cases (render_scalar number_text config.url variables 2048)) [
        | inl (e, failure) ↦ cc (rw failure at h)
        | inr (url, rendered) ↦ elim (Bool-cases (is_url url)) [
          | inl good ↦
              compile_from-Sendable config idempotency_key url request
                (request_of_compiled _ request (rw (rendered, good) at h)) whole key type
          | inr bad ↦ cc (rw (rendered, bad) at h)
        ]
      ]
