-- ===== src/Automation/Field.antt =====
-- `automationValueFor` and `valueAtPath` of packages/automation-core/src/index.ts: the value that a
-- condition's field name stands for.
pub mod Laws
use manychat.Prelude.{
  String, Bool, true, false, List, [], ◌∷◌, Option, none, some, ◌==◌, has, after_prefix, split,
  if◌then◌else◌,
}
use manychat.Value.{Value, undefined, null, obj, Fields, end, coalesce, own, member}

-- `record(value)`: anything but an object counts as the empty object.
abbrev pub record_of : Value → Fields
record_of (obj fields) = fields
record_of _ = end

abbrev pub dangerous_path_segments : List String
dangerous_path_segments = "__proto__" ∷ "constructor" ∷ "prototype" ∷ []

-- `dangerousPathSegments.has(part)`
unfoldable pub is_dangerous : String → Bool
is_dangerous part = has part dangerous_path_segments

abbrev pub found : Option Value → Value
found none = undefined
found (some v) = v

-- One round of the `reduce`.
unfoldable pub descend : Value → String → Value
unfolding own is_dangerous
descend (obj fields) part = if is_dangerous part then undefined else found (own part fields)
descend _ part = undefined

unfoldable pub walk : Value → List String → Value
walk current [] = current
walk current (part ∷ parts) = walk (descend current part) parts

unfoldable pub value_at_path : Value → String → Value
unfolding walk descend split
value_at_path value path = walk value (split b'.' path)

-- The cases of a name that is none of the three event fields, in the source's order: the test for
-- "contact." there leaves "contact.customFields." to the next.
prefixed : String → Fields → Fields → Value → Value
unfolding value_at_path member
prefixed field custom_fields contact variables = elim (after_prefix "contact.customFields." field) [
  | some key ↦ member key custom_fields
  | none ↦ elim (after_prefix "contact." field) [
    | some key ↦ coalesce (member key contact) null
    | none ↦ elim (after_prefix "variables." field) [
      | some path ↦ value_at_path variables path
      | none ↦ if field == "" then undefined else value_at_path variables field
    ]
  ]
]

-- `field` is `none` where the source has `undefined`. The tests for "nodes." and for any other name
-- that is not empty have one result.
unfoldable pub automation_value_for : Option String → Value → Value → Value → Value → Value
unfolding prefixed
automation_value_for none payload custom_fields contact variables = undefined
automation_value_for (some field) payload custom_fields contact variables =
    let content = record_of (member "content" (record_of payload)) in
    if field == "message.text"
    then coalesce (member "text" content) null
    else if field == "callback.data"
    then coalesce (member "data" content) null
    else if field == "event.type"
    then coalesce (member "type" (record_of payload)) null
    else prefixed field (record_of custom_fields) (record_of contact) (obj (record_of variables))
