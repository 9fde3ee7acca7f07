-- ===== src/Broadcasts/State.antt =====
-- A broadcast with its recipients, and what its preparation creates: the rows that
-- apps/worker/src/broadcasts/broadcast-preparation.service.ts and
-- apps/api/src/broadcasts/broadcasts.service.ts read and write of one broadcast.
use manychat.Prelude.{
  ℕ, String, Bool, true, false, List, [], ◌∷◌, Option, none, some, any, ◌==◌, if◌then◌else◌,
}
use manychat.HttpOutbox.Row.{OutboxRecordStatus}

pub data BroadcastStatus : Type 0 where
  draft scheduled preparing running paused completed cancelled failed archived : BroadcastStatus

pub data RecipientStatus : Type 0 where
  pending queued processing sent delivered read failed skipped cancelled unknown : RecipientStatus

pub data ChannelType : Type 0 where
  telegram whatsapp : ChannelType

pub record Broadcast : Type 0 where
  pub status : BroadcastStatus
  pub scheduled_at : Option ℕ
  pub started_at : Option ℕ
  pub completed_at : Option ℕ
  pub paused_at : Option ℕ
  pub cancelled_at : Option ℕ
  pub failed_at : Option ℕ
  pub error_code : Option String
  pub preparation_locked_at : Option ℕ
  pub preparation_locked_by : Option String

pub record Recipient : Type 0 where
  pub id : String
  pub contact_id : String
  pub channel_identity_id : String
  pub message_id : Option String
  pub outbox_record_id : Option String
  pub status : RecipientStatus
  pub queued_at : Option ℕ
  pub completed_at : Option ℕ
  pub last_error : Option String

-- A contact's address in the channel, of the audience of the broadcast.
pub record ChannelIdentity : Type 0 where
  pub id : String
  pub contact_id : String
  pub external_user_id : String

pub data MessageStatus : Type 0 where
  queued received processing sent delivered read deleted failed unknown : MessageStatus

pub record Message : Type 0 where
  pub id : String
  pub status : MessageStatus

-- An outbox record of the broadcast, by the recipient that its idempotency key names.
pub record Outgoing : Type 0 where
  pub id : String
  pub recipient_id : String
  pub status : OutboxRecordStatus
  pub last_error : Option String

pub record BroadcastRows : Type 0 where
  pub broadcast : Broadcast
  pub recipients : List Recipient
  pub conversations : List String
  pub messages : List Message
  pub outbox : List Outgoing

abbrev pub is_preparing : BroadcastStatus → Bool
is_preparing preparing = true
is_preparing _ = false

abbrev pub is_running : BroadcastStatus → Bool
is_running running = true
is_running _ = false

abbrev pub is_pending : RecipientStatus → Bool
is_pending pending = true
is_pending _ = false

abbrev pub is_queued : RecipientStatus → Bool
is_queued queued = true
is_queued _ = false

abbrev pub is_failed : RecipientStatus → Bool
is_failed failed = true
is_failed _ = false

abbrev pub locked_by : String → Option String → Bool
locked_by lease none = false
locked_by lease (some owner) = owner == lease

-- `updateMany` on the recipients
unfoldable pub update_recipients :
    (Recipient → Bool) → (Recipient → Recipient) → List Recipient → List Recipient
update_recipients test change [] = []
update_recipients test change (r ∷ rows) =
    (if test r then change r else r) ∷ update_recipients test change rows

abbrev pub write_recipients :
    (Recipient → Bool) → (Recipient → Recipient) → BroadcastRows → BroadcastRows
write_recipients test change w = record w {
  recipients = update_recipients test change w.recipients;
}

-- `{ status: { in: ['PENDING', 'QUEUED', 'PROCESSING'] } }`
abbrev pub is_open : RecipientStatus → Bool
is_open pending = true
is_open queued = true
is_open processing = true
is_open _ = false

-- `completeIfTerminal`
unfoldable pub complete_if_terminal : ℕ → BroadcastRows → BroadcastRows
complete_if_terminal now w =
    if any (λ (r : Recipient). is_open r.status) w.recipients
    then w
    else if is_running w.broadcast.status
    then record w { broadcast = record w.broadcast { completed_at = some now; status = completed } }
    else w
