-- ===== src/Runtime/Merge.antt =====
-- `deepMerge` of apps/worker/src/automation/automation-runtime.service.ts: the variables of an
-- execution with those that a request has mapped.
use manychat.Prelude.{
  String, Bool, true, false, not, ◌&&◌, has, Option, none, some, ◌==◌, eq_iff, if◌then◌else◌, ◌≡◌,
  ap, refl, inl, inr, arith, Bool-cases, Option-cases,
}
use manychat.Value.{
  Value, undefined, null, bool, num, str, obj, arr, inherited, Fields, end, field, member, own,
  with_member, prototype_members,
}

abbrev pub object_in : Value → Option Fields
object_in (obj fields) = some fields
object_in _ = none

unfoldable mutual
  unfolding member with_member

  -- The loop over the entries of `incoming`, in order.
  pub deep_merge : Fields → Fields → Fields
  deep_merge output end = output
  deep_merge output (field key v rest) =
      deep_merge (with_member key (merged (member key output) v) output) rest

  -- What is written under a key that has `existing`.
  pub merged : Value → Value → Value
  merged (obj current) (obj incoming) = obj (deep_merge current incoming)
  merged existing v = v

-- The names of an object's members, each once.
abbrev pub lacks : String → Fields → Bool
lacks key end = true
lacks key (field k v rest) = not (k == key) && lacks key rest

abbrev pub is_distinct : Fields → Bool
is_distinct end = true
is_distinct (field k v rest) = lacks k rest && is_distinct rest

-- What a member becomes, by its values on both sides.
abbrev pub merged_member : Option Value → Option Value → Option Value
merged_member existing none = existing
merged_member none (some v) = some v
merged_member (some existing) (some v) = some (merged existing v)

own-with_member :
    (written key : String) (v : Value) (fields : Fields)
    → own key (with_member written v fields) ≡ (if written == key then some v else own key fields)
unfolding own with_member
own-with_member written key v end = refl
own-with_member written key v (field k w rest) =
    ground (
      arith,
      own-with_member written key v rest,
      eq_iff k written,
      eq_iff k key,
      eq_iff written key,
    )

own-lacks : (key : String) (fields : Fields) → lacks key fields ≡ true → own key fields ≡ none
unfolding own
own-lacks key end h = refl
own-lacks key (field k v rest) h = ground (arith, own-lacks key rest)

merged-undefined : (v : Value) → merged undefined v ≡ v
unfolding merged
merged-undefined undefined = refl
merged-undefined null = refl
merged-undefined (bool b) = refl
merged-undefined (num n) = refl
merged-undefined (str s) = refl
merged-undefined (obj fields) = refl
merged-undefined (arr items) = refl
merged-undefined (inherited name) = refl

member-none :
    (key : String) (fields : Fields)
    → own key fields ≡ none
    → has key prototype_members ≡ false
    → member key fields ≡ undefined
unfolding member
member-none key fields e plain = rw (e, plain, member) refl

member-some :
    (key : String) (fields : Fields) (v : Value) → own key fields ≡ some v → member key fields ≡ v
unfolding member
member-some key fields v e = rw (e, member) refl

merged-found :
    (key : String) (v : Value) (output : Fields)
    → has key prototype_members ≡ false
    → some (merged (member key output) v) ≡ merged_member (own key output) (some v)
merged-found key v output plain = elim (Option-cases (own key output)) [
  | inl e ↦ rw (member-none key output e plain, e) (ap some (merged-undefined v))
  | inr (w, e) ↦ rw (member-some key output w e, e) refl
]

-- A merged object has a member where one of the two has it: that of the incoming object, unless both are
-- objects, which are merged in turn. Members with the names of inherited ones are left out, and the
-- incoming object has no name twice.
pub own-deep_merge :
    (key : String) (output incoming : Fields)
    → is_distinct incoming ≡ true
    → has key prototype_members ≡ false
    → own key (deep_merge output incoming) ≡ merged_member (own key output) (own key incoming)
unfolding own deep_merge
own-deep_merge key output end h plain = elim (Option-cases (own key output)) [
  | inl e ↦ rw e refl
  | inr (w, e) ↦ rw e refl
]
own-deep_merge key output (field k v rest) h plain =
    let later =
      own-deep_merge key (with_member k (merged (member k output) v) output) rest
        (ground (arith, h)) plain in
    let found = own-with_member k key (merged (member k output) v) output in
    elim (Bool-cases (k == key)) [
      | inl same ↦
          let only : own key rest ≡ none = own-lacks key rest (ground (arith, h, eq_iff k key)) in
          let name : k ≡ key = ground (arith, same, eq_iff k key) in
          rw (later, found, same, only) (rw name (merged-found key v output plain))
      | inr other ↦ rw (later, found, other) refl
    ]
