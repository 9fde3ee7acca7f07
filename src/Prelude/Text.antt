-- ===== src/Prelude/Text.antt =====
-- The string methods that the code uses. Code points stand for UTF-16 units: on well-formed text the
-- tests below have the same answers.
pub mod Laws
use Prim.Native.Nat.{ℕ, suc, ◌+◌}
use Prim.Native.Char.{Char, code}
use Prim.Native.String.{String}
use mathlib.Core.Path.{◌≡◌, refl}
use mathlib.Core.Bool.{Bool, true, false, ◌&&◌, ◌||◌}
use mathlib.Core.List.{List, [], ◌∷◌}
use mathlib.Core.Option.{Option, none, some}
use text.Mathlib.Text.{◌==◌}
use manychat.Prelude.Tests.{leb, nat_eq, if◌then◌else◌}

-- `s.startsWith(p)` with `s.slice(p.length)`
abbrev pub after_prefix : String → String → Option String
after_prefix String.[] s = some s
after_prefix (String.◌∷◌ d p) String.[] = none
after_prefix (String.◌∷◌ d p) (String.◌∷◌ c s) =
    let rest = after_prefix p s in if nat_eq (code d) (code c) then rest else none

abbrev pub is_some {ℓ} : {A : Type ℓ} → Option A → Bool
is_some none = false
is_some (some a) = true

-- `s.startsWith(p)`
abbrev pub starts_with : String → String → Bool
starts_with s p = is_some (after_prefix p s)

-- `s.endsWith(t)`
unfoldable pub ends_with : String → String → Bool
ends_with String.[] t = "" == t
ends_with (String.◌∷◌ c s) t = String.◌∷◌ c s == t || ends_with s t

-- `s.includes(t)`
unfoldable pub includes : String → String → Bool
includes String.[] t = starts_with "" t
includes (String.◌∷◌ c s) t = starts_with (String.◌∷◌ c s) t || includes s t

prepend : Char → List String → List String
prepend c [] = String.◌∷◌ c "" ∷ []
prepend c (p ∷ ps) = String.◌∷◌ c p ∷ ps

-- `s.split(d)` for a separator of one character, given by its code
unfoldable pub split : ℕ → String → List String
unfolding prepend
split d String.[] = "" ∷ []
split d (String.◌∷◌ c s) =
    let rest = split d s in if nat_eq (code c) d then "" ∷ rest else prepend c rest

-- The characters that `trim` removes: white space and line terminators of the language.
abbrev pub is_white : ℕ → Bool
is_white c =
    leb 9 c && leb c 13
    || nat_eq c 32
    || nat_eq c 160
    || nat_eq c 0x1680
    || leb 0x2000 c && leb c 0x200a
    || nat_eq c 0x2028
    || nat_eq c 0x2029
    || nat_eq c 0x202f
    || nat_eq c 0x205f
    || nat_eq c 0x3000
    || nat_eq c 0xfeff

-- `s.trim().length === 0`
unfoldable pub is_blank : String → Bool
is_blank String.[] = true
is_blank (String.◌∷◌ c s) = is_white (code c) && is_blank s

-- `s.length`: a character beyond the first 2^16 is two units.
unfoldable pub utf16_length : String → ℕ
utf16_length String.[] = 0
utf16_length (String.◌∷◌ c s) = (if leb 65536 (code c) then 2 else 1) + utf16_length s

-- The bytes of `s` in UTF-8.
unfoldable pub utf8_length : String → ℕ
utf8_length String.[] = 0
utf8_length (String.◌∷◌ c s) =
    (if leb (code c) 127
      then 1
      else if leb (code c) 2047
      then 2
      else if leb (code c) 65535
      then 3
      else 4)
    + utf8_length s

-- The characters of `s`.
abbrev pub char_count : String → ℕ
char_count String.[] = 0
char_count (String.◌∷◌ c s) = suc (char_count s)

abbrev pub all_chars : (ℕ → Bool) → String → Bool
all_chars test String.[] = true
all_chars test (String.◌∷◌ c s) = test (code c) && all_chars test s
