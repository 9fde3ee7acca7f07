-- ===== src/Value.antt =====
-- The values of type `unknown` that the automation code reads: JSON, and `undefined`.
-- A number is a finite double, and every finite double is a multiple of 2^-1074: `num n` stands for
-- n * 2^-1074, so the order and `===` are those of the integers. (-0 and 0 are one value, as for
-- `===`.) `inherited k` is what an object answers for a member `k` of `Object.prototype` that it does
-- not have itself. Arrays and objects that the code compares come from separate sources, so `===`,
-- which compares references, never holds of them.
use manychat.Prelude.{
  ℕ, ◌*◌, ◌%◌, ◌^◌, String, Bool, true, false, ◌&&◌, not, List, [], ◌∷◌, Option, none, some, ◌==◌,
  has, if◌then◌else◌, nat_eq, ltb,
}
use manychat.Prelude.Int.{ℤ, pos, eq_ℤ}

mutual
  pub data Value : Type 0 where
    undefined null : Value
    bool : (b : Bool) → Value
    num : (n : ℤ) → Value
    str : (s : String) → Value
    obj : (fields : Fields) → Value
    arr : (items : Items) → Value
    inherited : (name : String) → Value

  -- The members of an object.
  pub data Fields : Type 0 where
    end : Fields
    field : (key : String) → (v : Value) → (rest : Fields) → Fields

  -- The elements of an array.
  pub data Items : Type 0 where
    no_items : Items
    item : (v : Value) → (rest : Items) → Items

abbrev pub items : Items → List Value
items no_items = []
items (item v vs) = v ∷ items vs

-- `value === null || value === undefined`
abbrev pub is_nullish : Value → Bool
is_nullish undefined = true
is_nullish null = true
is_nullish _ = false

-- `a === b`
unfoldable pub strict_eq : Value → Value → Bool
strict_eq undefined undefined = true
strict_eq null null = true
strict_eq (bool true) (bool b) = b
strict_eq (bool false) (bool b) = not b
strict_eq (num a) (num b) = eq_ℤ a b
strict_eq (str s) (str t) = s == t
strict_eq (inherited k) (inherited j) = k == j
strict_eq _ _ = false

-- `a ?? b`
abbrev pub coalesce : Value → Value → Value
coalesce a b = if is_nullish a then b else a

-- `Object.hasOwn(object, key)` with `object[key]`
unfoldable pub own : String → Fields → Option Value
own key end = none
own key (field k v rest) = let later = own key rest in if k == key then some v else later

-- `object[key] = value`, and `{ ...object, [key]: value }`: an old member keeps its place.
unfoldable pub with_member : String → Value → Fields → Fields
with_member key value end = field key value end
with_member key value (field k v rest) =
    let behind = with_member key value rest in
    if k == key then field k value rest else field k v behind

abbrev pub prototype_members : List String
prototype_members =
    "constructor" ∷ "__proto__" ∷ "hasOwnProperty" ∷ "isPrototypeOf" ∷ "propertyIsEnumerable"
    ∷ "toLocaleString" ∷ "toString" ∷ "valueOf" ∷ "__defineGetter__" ∷ "__defineSetter__"
    ∷ "__lookupGetter__" ∷ "__lookupSetter__" ∷ []

-- `object[key]`
unfoldable pub member : String → Fields → Value
unfolding own
member key fields = elim (own key fields) [
  | some v ↦ v
  | none ↦ if has key prototype_members then inherited key else undefined
]

abbrev pub is_string : Value → Bool
is_string (str s) = true
is_string _ = false

-- `typeof value === 'string' && value.length > 0`
unfoldable pub is_non_empty_string : Value → Bool
is_non_empty_string (str s) = not (s == "")
is_non_empty_string _ = false

-- The integer 1, in units of 2^-1074.
unfoldable pub one : ℕ
one = 2 ^ 1074

-- `Number.isInteger(value) && typeof value === 'number' && value > 0`
unfoldable pub is_positive_integer : Value → Bool
unfolding one
is_positive_integer (num (pos n)) = ltb 0 n && nat_eq (n % one) 0
is_positive_integer _ = false

-- The value of a numeral of the source.
unfoldable pub whole : ℕ → Value
unfolding one
whole n = num (pos (n * one))
