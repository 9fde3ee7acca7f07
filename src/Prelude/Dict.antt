-- ===== src/Prelude/Dict.antt =====
-- Sets and maps with string keys. A `Set` is the list of its members, last added first; a `Map` is
-- the list of its entries in insertion order, where writing an old key keeps its place.
use Prim.Native.String.{String}
use mathlib.Core.Path.{◌≡◌, refl}
use mathlib.Core.Bool.{Bool, true, false, ◌||◌}
use mathlib.Core.List.{List, [], ◌∷◌}
use mathlib.Core.Option.{Option, none, some}
use native.Mathlib.Omega.{arith}
use text.Mathlib.Text.{◌==◌}
use text.Mathlib.TextEquality.{eq_iff}
use text.Mathlib.TextPositions.{eq_refl}
use mathlib.Core.Logic.{◌↔◌, ◌⊎◌}
use manychat.Prelude.Tests.{if◌then◌else◌}

-- `set.has(k)`, and `array.includes(k)`
abbrev pub has : String → List String → Bool
has k [] = false
has k (x ∷ xs) = x == k || has k xs

pub has-cons_iff :
    (x y : String) (xs : List String) → (has x (y ∷ xs) ≡ true) ↔ ((y ≡ x) ⊎ (has x xs ≡ true))
has-cons_iff x y xs = ground (arith, eq_iff y x)

pub has-cons_self : (x : String) (xs : List String) → has x (x ∷ xs) ≡ true
has-cons_self x xs = rw (eq_refl x)

pub has-cons_later : (x y : String) (xs : List String) → has x xs ≡ true → has x (y ∷ xs) ≡ true
has-cons_later x y xs h = ground arith

-- The entries of a `Map`.
abbrev pub Entries {ℓ} : Type ℓ → Type ℓ
Entries V = List (String × V)

module _ {ℓ} {V : Type ℓ} where
  -- `map.set(key, value)`
  unfoldable pub insert : String → V → Entries V → Entries V
  insert key value [] = (key, value) ∷ []
  insert key value ((name, old) ∷ entries) =
      let behind = insert key value entries in
      if name == key then (name, value) ∷ entries else (name, old) ∷ behind

  -- `map.get(key)`
  unfoldable pub lookup : String → Entries V → Option V
  lookup key [] = none
  lookup key ((name, value) ∷ entries) =
      let behind = lookup key entries in if name == key then some value else behind

  -- A key reads what was set last under it, any other what it read before.
  pub lookup-insert :
      (written key : String) (value : V) (entries : Entries V)
      → lookup key (insert written value entries)
        ≡ (if written == key then some value else lookup key entries)
  unfolding insert lookup
  lookup-insert written key value [] = refl
  lookup-insert written key value ((name, old) ∷ entries) =
      let behind = lookup-insert written key value entries in
      ground (arith, eq_iff name written, eq_iff name key, eq_iff written key)
