-- ===== src/Http/Compile/Laws.antt =====
-- The headers of a compiled request.
use manychat.Prelude.{
  String, ◌≡◌, refl, sym, inl, inr, false, not, ◌&&◌, List, [], ◌∷◌, insert, All, ◌==◌, Bool-cases,
  eq_iff,
}
use manychat.Prelude.Int.{ℤ}
use manychat.Value.{Value}
use manychat.Automation.HttpConfig.{Header, has_secret}
use manychat.Http.Transport.{Result, throws, returns, next}
use manychat.Http.Transport.Laws.{returns-eq}
use manychat.Http.Compile.{
  is_blocked_header, is_secret_only, has_line_break, header_value, set_header, add_header,
  compile_headers,
}

-- Nothing that follows an error returns.
pub next-returns :
    {A B : Type 0} (r : Result A) (f : A → Result B) (b : B)
    → next r f ≡ returns b
    → (a : A) × (r ≡ returns a) × (f a ≡ returns b)
next-returns (throws e) f b h = cc
next-returns (returns a) f b h = (a, refl, h)

module _ (lower : String → String) where
  -- The entry keeps the policy: its name is not blocked, and its value has no line break.
  abbrev pub Allowed : String × String → Type 0
  Allowed (name, value) = (is_blocked_header (lower name) ≡ false) × (has_line_break value ≡ false)

  pub insert-Allowed :
      (name value : String) (headers : List (String × String))
      → Allowed (name, value)
      → All Allowed headers
      → All Allowed (insert name value headers)
  unfolding insert
  insert-Allowed name value [] ok h = (ok, tt)
  insert-Allowed name value ((other, old) ∷ headers) ok (first, h) =
      elim (Bool-cases (other == name)) [
        | inl same ↦ rw same ((rw ((eq_iff other name).0 same) ok.0, ok.1), h)
        | inr apart ↦ rw apart (first, insert-Allowed name value headers ok h)
      ]

module _ (number_text : ℤ → String) (lower : String → String) (secret_for : String → Result String)
    (variables : Value) where
  -- What a header that is added says of itself.
  record Added (header : Header) (headers out : List (String × String)) : Type 0 where
    value : String
    plain : is_blocked_header (lower header.name) ≡ false
    whole : has_line_break value ≡ false
    read : header_value number_text lower secret_for variables header ≡ returns value
    secret : (is_secret_only (lower header.name) && not (has_secret header.secret_id)) ≡ false
    written : out ≡ insert header.name value headers

  set_header-returns :
      (name value : String) (headers out : List (String × String))
      → set_header number_text lower secret_for variables name headers value ≡ returns out
      → (has_line_break value ≡ false) × (insert name value headers ≡ out)
  set_header-returns name value headers out h = elim (Bool-cases (has_line_break value)) [
    | inl broken ↦ cc (rw broken at h)
    | inr whole ↦ (whole, returns-eq (rw whole at h))
  ]

  Added-of_add :
      (header : Header) (headers out : List (String × String))
      → add_header number_text lower secret_for variables header headers ≡ returns out
      → Added header headers out
  Added-of_add header headers out h = elim (Bool-cases (is_blocked_header (lower header.name))) [
    | inl bad ↦ cc (rw bad at h)
    | inr plain ↦
        elim (Bool-cases
          (is_secret_only (lower header.name) && not (has_secret header.secret_id))) [
            | inl bare ↦ cc (rw (plain, bare) at h)
            | inr covered ↦
                let (value, read, set) = next-returns _ _ out (rw (plain, covered) at h) in
                let (whole, written) = set_header-returns header.name value headers out set in
                record {
                  value = value;
                  plain = plain;
                  whole = whole;
                  read = read;
                  secret = covered;
                  written = sym written;
                }
          ]
  ]

  -- Every header of a request that is compiled keeps the policy, if those that the loop starts from do:
  -- no hop-by-hop and no forwarding header, and no value with a line break.
  pub compile_headers-Allowed :
      (config : List Header) (headers out : List (String × String))
      → compile_headers number_text lower secret_for variables config headers ≡ returns out
      → All (Allowed lower) headers
      → All (Allowed lower) out
  unfolding compile_headers
  compile_headers-Allowed [] headers out h ok = rw (← returns-eq h) ok
  compile_headers-Allowed (header ∷ config) headers out h ok =
      let (middle, first, rest) = next-returns _ _ out h in
      let added = Added-of_add header headers middle first in
      compile_headers-Allowed config middle out rest (
        rw added.written
          (insert-Allowed lower header.name added.value headers (added.plain, added.whole) ok))
