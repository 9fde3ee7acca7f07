-- ===== src/Automation/Reply/Laws.antt =====
-- Which events count as the reply that a scenario waits for.
use manychat.Prelude.{String, ◌≡◌, refl, true, false, Option, some, arith, Option-cases, inl, inr}
use manychat.Value.{Value, undefined, null, str, obj, Fields, end, field, coalesce, member}
use manychat.Automation.Field.{record_of}
use manychat.Automation.Reply.{
  Criteria, any_reply, text, TextOperator, preprocess, is_supported, matches_event,
  matches_wait_for_reply_criteria,
}

-- The event of a text message.
abbrev pub text_event : String → String → Value
text_event type body =
    obj (field "type" (str type) (field "content" (obj (field "text" (str body) end)) end))

module _ (contract : Value → Option Criteria) (lower : String → String) where
  matches_event-supported :
      (criteria : Criteria) (type : Value) (payload : Fields)
      → matches_event contract lower criteria type payload ≡ true
      → (t : String) × (type ≡ str t) × (is_supported t ≡ true)
  matches_event-supported criteria (str t) payload h = (t, refl, ground arith)
  matches_event-supported criteria _ payload h = cc

  -- Whatever the criteria, an event that matches is an object whose `type` is a supported one.
  pub matches-supported :
      (criteria_input payload_input : Value)
      → matches_wait_for_reply_criteria contract lower criteria_input payload_input ≡ true
      → (t : String) × (member "type" (record_of payload_input) ≡ str t) × (is_supported t ≡ true)
  unfolding matches_wait_for_reply_criteria
  matches-supported criteria_input payload_input h =
      elim (Option-cases (contract (preprocess (coalesce criteria_input (obj end))))) [
        | inl bad ↦ cc (bad, h)
        | inr (criteria, parsed) ↦
            matches_event-supported criteria _ (record_of payload_input)
              (rw (parsed, matches_wait_for_reply_criteria) at h)
      ]

  -- Criteria that are missing or empty accept every event of a supported type, if the contract reads
  -- `{ kind: 'ANY' }` as it is documented.
  pub matches-empty :
      (payload : Fields) (t : String)
      → contract (obj (field "kind" (str "ANY") end)) ≡ some any_reply
      → member "type" payload ≡ str t
      → (matches_wait_for_reply_criteria contract lower undefined (obj payload) ≡ is_supported t)
        × (matches_wait_for_reply_criteria contract lower null (obj payload) ≡ is_supported t)
        × (matches_wait_for_reply_criteria contract lower (obj end) (obj payload) ≡ is_supported t)
  unfolding matches_wait_for_reply_criteria
  matches-empty payload t any type = ground arith

  -- Text criteria that ignore case give one answer on two messages whose texts have one lower case.
  pub matches-lower :
      (criteria_input : Value) (operator : TextOperator) (value t a b : String)
      → contract (preprocess (coalesce criteria_input (obj end))) ≡ some (text false operator value)
      → lower a ≡ lower b
      → matches_wait_for_reply_criteria contract lower criteria_input (text_event t a)
        ≡ matches_wait_for_reply_criteria contract lower criteria_input (text_event t b)
  unfolding matches_wait_for_reply_criteria member
  matches-lower criteria_input operator value t a b parsed same =
      rw (parsed, same, matches_wait_for_reply_criteria)
