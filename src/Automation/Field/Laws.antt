-- ===== src/Automation/Field/Laws.antt =====
-- Which values a field name can reach.
use manychat.Prelude.{
  String, ◌≡◌, ◌≢◌, ◌↔◌, refl, sym, ap, ◌∙◌, true, false, inl, inr, List, [], ◌∷◌, none, some, has,
  split, after_prefix, Bool-cases, Option-cases, ◌==◌, eq_iff,
}
use manychat.Value.{Value, undefined, obj, Fields, own, member, prototype_members}
use manychat.Automation.Graph.{exists}
use manychat.Automation.Condition.{evaluate_condition}
use manychat.Automation.Field.{
  is_dangerous, descend, walk, value_at_path, prefixed, automation_value_for,
}

-- `parts` lead from a value to another through members that each object has itself, none of them
-- named by a dangerous segment.
pub data Leads : Value → List String → Value → Type 0 where
  here : {v : Value} → Leads v [] v
  into :
      {fields : Fields} {part : String} {parts : List String} {v w : Value}
      → is_dangerous part ≡ false
      → own part fields ≡ some v
      → Leads v parts w
      → Leads (obj fields) (part ∷ parts) w

walk-undefined : (parts : List String) → walk undefined parts ≡ undefined
unfolding walk descend
walk-undefined [] = refl
walk-undefined (part ∷ parts) = walk-undefined parts

walk-descend :
    (v : Value) (part : String) (parts : List String) {w : Value}
    → w ≢ undefined
    → walk v (part ∷ parts) ≡ w
    → descend v part ≢ undefined
unfolding walk
walk-descend v part parts n e u = n (sym e ∙ ap (λ x. walk x parts) u ∙ walk-undefined parts)

-- A member that `descend` reaches is the object's own, under a name that is not dangerous.
descend-own :
    (fields : Fields) (part : String)
    → descend (obj fields) part ≢ undefined
    → (is_dangerous part ≡ false) × (own part fields ≡ some (descend (obj fields) part))
unfolding descend
descend-own fields part n = elim (Bool-cases (is_dangerous part)) [
  | inl bad ↦ absurd (n (rw bad))
  | inr good ↦ elim (Option-cases (own part fields)) [
    | inl missing ↦ absurd (n (rw (good, missing)))
    | inr (v, got) ↦ (good, rw (good, got))
  ]
]

Leads-of_walk :
    (v : Value) (parts : List String) (w : Value)
    → w ≢ undefined
    → walk v parts ≡ w
    → Leads v parts w
unfolding walk descend
Leads-of_walk v [] w n e = rw e here
Leads-of_walk (obj fields) (part ∷ parts) w n e =
    let (safe, at) = descend-own fields part (walk-descend (obj fields) part parts n e) in
    into safe at (Leads-of_walk (descend (obj fields) part) parts w n e)
Leads-of_walk _ (part ∷ parts) w n e = absurd (n (sym e ∙ walk-undefined parts))

descend_of_own :
    (fields : Fields) (part : String) (v : Value)
    → is_dangerous part ≡ false
    → own part fields ≡ some v
    → descend (obj fields) part ≡ v
unfolding descend
descend_of_own fields part v safe at = rw (safe, at)

walk_of_Leads : {v : Value} {parts : List String} {w : Value} → Leads v parts w → walk v parts ≡ w
unfolding walk
walk_of_Leads here = refl
walk_of_Leads (into {fields} {part} {parts} {v} safe at later) =
    ap (λ x. walk x parts) (descend_of_own fields part v safe at) ∙ walk_of_Leads later

-- A path names a value other than `undefined` exactly when its segments lead there through members
-- that the objects have themselves, none of them named `__proto__`, `constructor` or `prototype`.
pub value_at_path_iff :
    (v : Value) (path : String) (w : Value)
    → w ≢ undefined
    → (value_at_path v path ≡ w) ↔ Leads v (split b'.' path) w
unfolding value_at_path
value_at_path_iff v path w n = (Leads-of_walk v (split b'.' path) w n, walk_of_Leads)

other_name :
    (prefix field name : String) {key : String}
    → after_prefix prefix field ≡ some key
    → after_prefix prefix name ≡ none
    → (field == name) ≡ false
other_name prefix field name p q = elim (Bool-cases (field == name)) [
  | inl same ↦ cc (ap (after_prefix prefix) ((eq_iff _ _).0 same), p, q)
  | inr other ↦ other
]

-- A field `contact.<key>` of a contact that has no member `key` of its own still stands for a value
-- when `key` is a member of `Object.prototype`, so the condition `exists` holds of it.
pub contact_inherited :
    (field key : String) (payload custom_fields variables expected : Value) (contact : Fields)
    → after_prefix "contact." field ≡ some key
    → after_prefix "contact.customFields." field ≡ none
    → has key prototype_members ≡ true
    → own key contact ≡ none
    → evaluate_condition exists
        (automation_value_for (some field) payload custom_fields (obj contact) variables)
        expected
      ≡ true
unfolding automation_value_for evaluate_condition member
contact_inherited field key payload custom_fields variables expected contact p q known missing =
    rw (
      other_name "contact." field "message.text" p refl,
      other_name "contact." field "callback.data" p refl,
      other_name "contact." field "event.type" p refl,
      q,
      p,
      missing,
      known,
      prefixed,
      member,
    )
