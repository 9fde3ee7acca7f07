-- ===== src/Automation/Reply.antt =====
-- `matchesWaitForReplyCriteria` of packages/automation-core/src/index.ts: whether an inbound event is
-- the reply that a scenario waits for. `contract` is the parser that zod makes of
-- `waitCriteriaContractSchema`, `lower` is `toLocaleLowerCase`, which depends on the host's locale.
pub mod Laws
use manychat.Prelude.{
  String, Bool, true, false, List, [], ◌∷◌, ◌++◌, map, Option, none, some, has, if◌then◌else◌,
}
use manychat.Value.{Value, undefined, str, obj, Fields, end, field, coalesce, member}
use manychat.Automation.Graph.{Operator}
use manychat.Automation.Condition.{evaluate_condition}
use manychat.Automation.Field.{record_of}

pub data MediaType : Type 0 where
  photo document video audio voice video_note animation sticker : MediaType

abbrev pub media_name : MediaType → String
media_name photo = "PHOTO"
media_name document = "DOCUMENT"
media_name video = "VIDEO"
media_name audio = "AUDIO"
media_name voice = "VOICE"
media_name video_note = "VIDEO_NOTE"
media_name animation = "ANIMATION"
media_name sticker = "STICKER"

abbrev pub wait_reply_media_types : List MediaType
wait_reply_media_types =
    photo ∷ document ∷ video ∷ audio ∷ voice ∷ video_note ∷ animation ∷ sticker ∷ []

pub data TextOperator : Type 0 where
  equals contains starts_with ends_with : TextOperator

abbrev pub as_operator : TextOperator → Operator
as_operator equals = Operator.equals
as_operator contains = Operator.contains
as_operator starts_with = Operator.starts_with
as_operator ends_with = Operator.ends_with

pub data Criteria : Type 0 where
  any_reply : Criteria
  text : (case_sensitive : Bool) → TextOperator → (value : String) → Criteria
  callback : (case_sensitive : Bool) → TextOperator → (value : String) → Criteria
  media : List MediaType → Criteria

-- The step that `waitForReplyCriteriaSchema` runs before the contract: `{}` means any reply.
unfoldable pub preprocess : Value → Value
preprocess (obj end) = obj (field "kind" (str "ANY") end)
preprocess input = input

abbrev pub supported_reply_event_types : List String
supported_reply_event_types =
    "MESSAGE"
    ∷ "COMMAND"
    ∷ "CALLBACK_QUERY"
    ∷ "CONTACT_SHARED"
    ∷ map media_name wait_reply_media_types

-- `supportedReplyEventTypes.has(eventType)`
unfoldable pub is_supported : String → Bool
is_supported event_type = has event_type supported_reply_event_types

module _ (contract : Value → Option Criteria) (lower : String → String) where
  abbrev fold : Bool → String → String
  fold case_sensitive s = if case_sensitive then s else lower s

  -- `actual` is the member that the criteria read.
  abbrev compare_text : Bool → TextOperator → String → Value → Bool
  compare_text sensitive operator expected (str actual) =
      evaluate_condition (as_operator operator) (str (fold sensitive actual))
        (str (fold sensitive expected))
  compare_text sensitive operator expected _ = false

  abbrev accepts : Criteria → String → Fields → Bool
  accepts any_reply event_type content = true
  accepts (media types) event_type content = has event_type (map media_name types)
  accepts (callback sensitive operator value) event_type content =
      compare_text sensitive operator value (member "data" content)
  accepts (text sensitive operator value) event_type content =
      compare_text sensitive operator value (member "text" content)

  abbrev matches_event : Criteria → Value → Fields → Bool
  matches_event criteria (str event_type) payload =
      if is_supported event_type
      then accepts criteria event_type (record_of (member "content" payload))
      else false
  matches_event criteria _ payload = false

  unfoldable pub matches_wait_for_reply_criteria : Value → Value → Bool
  unfolding preprocess
  matches_wait_for_reply_criteria criteria_input payload_input =
      elim (contract (preprocess (coalesce criteria_input (obj end)))) [
        | none ↦ false
        | some criteria ↦
            matches_event criteria (member "type" (record_of payload_input))
              (record_of payload_input)
      ]
