-- ===== src/Http/Heap.antt =====
-- The objects that packages/automation-http/src/index.ts reads and writes by reference: `valueAt` and
-- `setAt`. What is no object, and an array, whose elements this code never writes, is a plain value.
pub mod Laws
use manychat.Prelude.{
  ℕ, suc, ◌+◌, String, Bool, true, false, List, [], ◌∷◌, Option, none, some, Entries, insert,
  lookup, split, nat_eq, if◌then◌else◌,
}
use manychat.Value.{Value, undefined, obj, Fields, end, field}
use manychat.Automation.Field.{is_dangerous}

pub data Ref : Type 0 where
  plain : Value → Ref
  at : ℕ → Ref

-- The members of each object, and the first address that is free.
pub record Heap : Type 0 where
  pub next : ℕ
  pub cell : ℕ → Entries Ref

abbrev pub no_objects : Heap
no_objects = record { next = 0; cell = λ _. [] }

abbrev pub update : (ℕ → Entries Ref) → ℕ → Entries Ref → ℕ → Entries Ref
update cell address entries a = if nat_eq address a then entries else cell a

abbrev pub write : ℕ → Entries Ref → Heap → Heap
write address entries h = record h { cell = update h.cell address entries }

-- `{}` and other literals: a new object, at the address `h.next`
abbrev pub allocate : Entries Ref → Heap → Heap
allocate entries h = record { next = suc h.next; cell = update h.cell h.next entries }

-- `object[part] = value`
abbrev pub assign : ℕ → String → Ref → Heap → Heap
assign address part value h = write address (insert part value (h.cell address)) h

-- The objects of a value, as `JSON.parse` makes them: those inside before the one around them.
unfoldable mutual
  pub load : Value → Heap → Ref × Heap
  load (obj fields) h =
      let (entries, after) = load_fields fields h in (at after.next, allocate entries after)
  load v h = (plain v, h)

  pub load_fields : Fields → Heap → Entries Ref × Heap
  load_fields end h = ([], h)
  load_fields (field key v rest) h =
      let (value, middle) = load v h in
      let (entries, after) = load_fields rest middle in ((key, value) ∷ entries, after)

abbrev pub or_undefined : Option Ref → Ref
or_undefined none = plain undefined
or_undefined (some r) = r

-- One round of the `reduce` of `valueAt`.
unfoldable pub step_into : Heap → Ref → String → Ref
step_into h (plain v) part = plain undefined
step_into h (at address) part =
    if is_dangerous part then plain undefined else or_undefined (lookup part (h.cell address))

unfoldable pub follow : Heap → Ref → List String → Ref
follow h r [] = r
follow h r (part ∷ parts) = follow h (step_into h r part) parts

unfoldable pub value_at_ref : Heap → Ref → String → Ref
unfolding follow
value_at_ref h r path = follow h r (split b'.' path)

-- How `setAt` ends: with the objects as they are then, also where it throws.
pub data Setting : Type 0 where
  set_in thrown_in : Heap → Setting

abbrev pub address_of : Option Ref → Option ℕ
address_of (some (at address)) = some address
address_of _ = none

-- The rounds of `setAt`, from the object at the address on. What an object inherits is a function, and
-- is replaced like any other member that is no object.
unfoldable pub set_parts : ℕ → List String → Ref → Heap → Setting
set_parts address [] value h = set_in h
set_parts address (part ∷ []) value h =
    if is_dangerous part then thrown_in h else set_in (assign address part value h)
set_parts address (part ∷ next ∷ parts) value h = elim (is_dangerous part) [
  | true ↦ thrown_in h
  | false ↦ elim (address_of (lookup part (h.cell address))) [
    | some inner ↦ set_parts inner (next ∷ parts) value h
    | none ↦ set_parts h.next (next ∷ parts) value (assign address part (at h.next) (allocate [] h))
  ]
]

unfoldable pub set_at : ℕ → String → Ref → Heap → Setting
unfolding set_parts
set_at target path value h = set_parts target (split b'.' path) value h
