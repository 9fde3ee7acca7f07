-- ===== src/Http/Template.antt =====
-- `renderScalar` and `renderJsonValue` of packages/automation-http/src/index.ts: the expressions
-- `{{ path }}` of a template. `number_text` is the language's text of a number.
pub mod Laws
use Prim.Native.Char.{Char, code}
use Prim.Native.String.{◌++◌}
use manychat.Prelude.{
  ℕ, zero, suc, ◌+◌, ◌-◌, String, Bool, true, false, ◌&&◌, ◌||◌, List, [], ◌∷◌, Option, none, some,
  leb, ltb, nat_eq, ◌==◌, after_prefix, is_white, utf16_length, char_count, if◌then◌else◌,
}
use manychat.Prelude.Int.{ℤ}
use manychat.Value.{
  Value, undefined, null, bool, num, str, arr, obj, inherited, Items, no_items, item, Fields, end,
  field,
}
use manychat.Automation.Field.{value_at_path}
use manychat.Http.Transport.{Result, throws, returns, permanent}

-- `valueAt` has the text of `valueAtPath`.
abbrev pub value_at : Value → String → Value
value_at = value_at_path

-- `[a-zA-Z0-9_.]`
abbrev pub is_path_char : ℕ → Bool
is_path_char c =
    leb b'a' c && leb c b'z'
    || leb b'A' c && leb c b'Z'
    || leb b'0' c && leb c b'9'
    || nat_eq c b'_'
    || nat_eq c b'.'

-- The longest text in front whose characters pass the test, and what follows it.
unfoldable pub span : (ℕ → Bool) → String → String × String
span test String.[] = ("", "")
span test (String.◌∷◌ c s) =
    let (taken, rest) = span test s in
    if test (code c) then (String.◌∷◌ c taken, rest) else ("", String.◌∷◌ c s)

-- `([a-zA-Z0-9_.]+)\s*}}` part by part: the path, white space, the closing braces.
abbrev pub closed : String → Option String → Option (String × String)
closed path none = none
closed path (some rest) = if path == "" then none else some (path, rest)

abbrev pub after_space : String → String × String → Option (String × String)
after_space path (white, c) = closed path (after_prefix "}}" c)

abbrev pub after_path : String × String → Option (String × String)
after_path (path, b) = after_space path (span is_white b)

abbrev pub after_white : String × String → Option (String × String)
after_white (white, a) = after_path (span is_path_char a)

abbrev pub inside : Option String → Option (String × String)
inside none = none
inside (some s) = after_white (span is_white s)

-- The expression in front of a text: its path, and what follows it.
unfoldable pub expression_at : String → Option (String × String)
unfolding span
expression_at s = inside (after_prefix "{{" s)

module _ (number_text : ℤ → String) where
  -- What the callback of `replace` returns for a value: a string, number or boolean as text.
  unfoldable pub scalar_text : Value → Result String
  scalar_text undefined = permanent "external_http_variable_missing"
  scalar_text null = permanent "external_http_variable_missing"
  scalar_text (arr items) = permanent "external_http_variable_not_scalar"
  scalar_text (obj fields) = permanent "external_http_variable_not_scalar"
  scalar_text (str s) = returns s
  scalar_text (num n) = returns (number_text n)
  scalar_text (bool true) = returns "true"
  scalar_text (bool false) = returns "false"
  -- not reached: a value that a path names is an object's own
  scalar_text (inherited name) = permanent "external_http_variable_not_scalar"

  abbrev pub join : Result String → Result String → Result String
  join (throws e) rest = throws e
  join (returns text) (throws e) = throws e
  join (returns text) (returns rest) = returns (text ++ rest)

  -- One step at the character `c`: `again k` is what follows it, without its first `k` characters.
  abbrev pub matched :
      Value → Char → String → (ℕ → Result String) → Option (String × String) → Result String
  matched variables c s again none = join (returns (String.◌∷◌ c "")) (again zero)
  matched variables c s again (some (path, rest)) =
      join (scalar_text (value_at variables path)) (again (char_count s - char_count rest))

  -- `template.replace(...)`, with `skip` characters of an expression still to pass.
  unfoldable pub replace : Value → ℕ → String → Result String
  replace variables skip String.[] = returns ""
  replace variables (suc skip) (String.◌∷◌ c s) = replace variables skip s
  replace variables zero (String.◌∷◌ c s) =
      matched variables c s (λ k. replace variables k s) (expression_at (String.◌∷◌ c s))

  abbrev checked : ℕ → Result String → Result String
  checked maximum_length (throws e) = throws e
  checked maximum_length (returns output) =
      if ltb maximum_length (utf16_length output)
      then permanent "external_http_rendered_value_too_large"
      else returns output

  unfoldable pub render_scalar : String → Value → ℕ → Result String
  unfolding replace
  render_scalar template variables maximum_length =
      checked maximum_length (replace variables zero template)
