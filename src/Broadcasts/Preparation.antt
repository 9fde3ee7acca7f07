-- ===== src/Broadcasts/Preparation.antt =====
-- `scanOnce` and `materialize` of apps/worker/src/broadcasts/broadcast-preparation.service.ts, for one
-- broadcast. The audience (`identities`), the template of the content and the identifiers that the
-- database makes are arguments.
use manychat.Prelude.{
  ℕ, ◌-◌, String, Bool, true, false, not, ◌&&◌, List, [], ◌∷◌, Option, none, some, any, find,
  filter, has, leb, ltb, ◌==◌, if◌then◌else◌,
}
use manychat.HttpOutbox.Row.{OutboxRecordStatus}
use manychat.Broadcasts.State.{
  BroadcastStatus, preparing, running, completed, RecipientStatus, pending, queued, ChannelType,
  whatsapp, telegram, Broadcast, Recipient, ChannelIdentity, MessageStatus, Outgoing, BroadcastRows,
  is_preparing, is_running, is_pending, locked_by, update_recipients, write_recipients,
  complete_if_terminal,
}

-- What the rendering of the content for a contact gives; a content that is not valid throws.
pub data Rendered : Type 0 where
  content missing_variables invalid_content : Rendered

-- What a round of the loop over the recipients does to it.
pub data QueueRound : Type 0 where
  goes_on stops : BroadcastRows → QueueRound

-- `channelConnection`: its status is ACTIVE, and its type, if it is one of the two.
pub record Connection : Type 0 where
  pub connected : Bool
  pub type : Option ChannelType

abbrev pub same_channel : ChannelType → Option ChannelType → Bool
same_channel telegram (some telegram) = true
same_channel whatsapp (some whatsapp) = true
same_channel _ _ = false

abbrev pub is_connected : ChannelType → Option Connection → Bool
is_connected channel none = false
is_connected channel (some c) = c.connected && same_channel channel c.type

abbrev pub expired : Option ℕ → ℕ → Bool
expired none lease_expired_before = true
expired (some t) lease_expired_before = ltb t lease_expired_before

abbrev pub is_due : Option ℕ → ℕ → Bool
is_due none now = false
is_due (some t) now = leb t now

abbrev pub is_scheduled : BroadcastStatus → Bool
is_scheduled BroadcastStatus.scheduled = true
is_scheduled _ = false

-- The first statement of a scan: a scheduled broadcast that is due is prepared.
unfoldable pub promote : ℕ → BroadcastRows → BroadcastRows
promote now w =
    if is_scheduled w.broadcast.status && is_due w.broadcast.scheduled_at now
    then record w {
      broadcast = record w.broadcast {
        status = preparing;
        started_at = some now;
        scheduled_at = none;
      };
    }
    else w

-- The claim of a scan.
unfoldable pub can_claim : ℕ → BroadcastRows → Bool
can_claim lease_expired_before w =
    is_preparing w.broadcast.status
    && expired w.broadcast.preparation_locked_at lease_expired_before

abbrev pub take_lease : ℕ → String → BroadcastRows → BroadcastRows
take_lease now lease w = record w {
  broadcast = record w.broadcast {
    preparation_locked_at = some now;
    preparation_locked_by = some lease;
  };
}

-- `{ preparationLockedBy: lease, status: 'PREPARING' }`
unfoldable pub holds_lease : String → BroadcastRows → Bool
holds_lease lease w =
    locked_by lease w.broadcast.preparation_locked_by && is_preparing w.broadcast.status

-- `failBroadcast`
unfoldable pub fail_broadcast : ℕ → String → String → BroadcastRows → BroadcastRows
unfolding holds_lease
fail_broadcast now lease code w =
    if holds_lease lease w
    then record w {
      broadcast = record w.broadcast {
        error_code = some code;
        failed_at = some now;
        preparation_locked_at = none;
        preparation_locked_by = none;
        status = BroadcastStatus.failed;
      };
    }
    else w

-- The `catch` of `materialize`.
unfoldable pub defer : String → BroadcastRows → BroadcastRows
unfolding holds_lease
defer lease w =
    if holds_lease lease w
    then record w {
      broadcast = record w.broadcast {
        error_code = some "broadcast_preparation_retryable";
        preparation_locked_at = none;
        preparation_locked_by = none;
      };
    }
    else w

module _ (new_recipient_id new_message_id new_outbox_id : String → String) where
  abbrev pub new_recipient : ChannelIdentity → Recipient
  new_recipient identity = record {
    id = new_recipient_id identity.id;
    contact_id = identity.contact_id;
    channel_identity_id = identity.id;
    message_id = none;
    outbox_record_id = none;
    status = pending;
    queued_at = none;
    completed_at = none;
    last_error = none;
  }

  abbrev pub is_recipient : ChannelIdentity → Recipient → Bool
  is_recipient identity r = r.channel_identity_id == identity.id

  -- `createMany` with `skipDuplicates`: a broadcast has one recipient for each identity.
  unfoldable pub create_recipients : List ChannelIdentity → List Recipient → List Recipient
  create_recipients [] rows = rows
  create_recipients (identity ∷ identities) rows =
      create_recipients identities
        (if any (is_recipient identity) rows then rows else new_recipient identity ∷ rows)

  abbrev pub is_empty {ℓ} : {A : Type ℓ} → List A → Bool
  is_empty [] = true
  is_empty (x ∷ xs) = false

  abbrev pub started : ℕ → List ChannelIdentity → Broadcast → Broadcast
  started now identities b = record b {
    status = if is_empty identities then completed else running;
    completed_at = if is_empty identities then some now else none;
    preparation_locked_at = none;
    preparation_locked_by = none;
    error_code = none;
  }

  -- The transaction that makes the recipients and starts the broadcast.
  unfoldable pub start_sending : ℕ → String → List ChannelIdentity → BroadcastRows → BroadcastRows
  unfolding create_recipients holds_lease
  start_sending now lease identities w = record w {
    recipients = create_recipients identities w.recipients;
    broadcast = if holds_lease lease w then started now identities w.broadcast else w.broadcast;
  }

  abbrev pub is_pending_one : String → Recipient → Bool
  is_pending_one id r = r.id == id && is_pending r.status

  abbrev pub link : ℕ → Recipient → Recipient
  link now r = record r {
    status = queued;
    message_id = some (new_message_id r.id);
    outbox_record_id = some (new_outbox_id r.id);
    queued_at = some now;
  }

  abbrev pub upsert : String → List String → List String
  upsert chat conversations = if has chat conversations then conversations else chat ∷ conversations

  -- The transaction that queues a recipient. Its idempotency key is unique, and the database's refusal
  -- rolls it back.
  unfoldable pub queue_recipient : ℕ → String → ChannelIdentity → BroadcastRows → QueueRound
  queue_recipient now id identity w =
      if not (is_running w.broadcast.status)
      then goes_on w
      else if any (λ (o : Outgoing). o.recipient_id == id) w.outbox
      then stops w
      else goes_on (record w {
        conversations = upsert identity.external_user_id w.conversations;
        messages = record { id = new_message_id id; status = MessageStatus.queued } ∷ w.messages;
        outbox =
            record {
              id = new_outbox_id id;
              recipient_id = id;
              status = OutboxRecordStatus.pending;
              last_error = none;
            }
            ∷ w.outbox;
        recipients = update_recipients (is_pending_one id) (link now) w.recipients;
      })

  abbrev pub miss : ℕ → Recipient → Recipient
  miss now r = record r {
    completed_at = some now;
    last_error = some "broadcast_template_variable_missing";
    status = RecipientStatus.failed;
  }

  abbrev pub queue_rendered : ℕ → String → ChannelIdentity → Rendered → BroadcastRows → QueueRound
  queue_rendered now id identity content w = queue_recipient now id identity w
  queue_rendered now id identity missing_variables w =
      goes_on (write_recipients (is_pending_one id) (miss now) w)
  queue_rendered now id identity invalid_content w = stops w

  -- One round, for a recipient that was pending when the loop began.
  abbrev pub queue_one :
      ℕ
      → (ChannelIdentity → Rendered)
      → String
      → Option ChannelIdentity
      → BroadcastRows
      → QueueRound
  queue_one now render id none w = goes_on w
  queue_one now render id (some identity) w = queue_rendered now id identity (render identity) w

  unfoldable pub queue_all :
      ℕ
      → (ChannelIdentity → Rendered)
      → List ChannelIdentity
      → List Recipient
      → BroadcastRows
      → QueueRound
  queue_all now render identities [] w = goes_on w
  queue_all now render identities (r ∷ recipients) w =
      elim (queue_one now render r.id
        (find (λ (i : ChannelIdentity). i.id == r.channel_identity_id) identities) w) [
          | goes_on after ↦ queue_all now render identities recipients after
          | stops after ↦ stops after
        ]

  abbrev pub ended : ℕ → String → QueueRound → BroadcastRows
  ended now lease (goes_on w) = complete_if_terminal now w
  ended now lease (stops w) = defer lease w

  -- The loop over the recipients that are pending after the transaction, and what follows it.
  unfoldable pub queue_pending :
      ℕ
      → String
      → (ChannelIdentity → Rendered)
      → List ChannelIdentity
      → BroadcastRows
      → BroadcastRows
  unfolding queue_all
  queue_pending now lease render identities begun = ended now lease (
      queue_all now render identities
        (filter (λ (r : Recipient). is_pending r.status) begun.recipients) begun)

  -- The transaction, which looks at the connection again, and the loop.
  unfoldable pub prepare :
      ℕ
      → String
      → ChannelType
      → Option Connection
      → (ChannelIdentity → Rendered)
      → List ChannelIdentity
      → BroadcastRows
      → BroadcastRows
  unfolding start_sending queue_pending
  prepare now lease channel later render identities w = queue_pending now lease render identities (
      if is_connected channel later
      then start_sending now lease identities w
      else fail_broadcast now lease "broadcast_channel_not_active" w)

  -- `connection` and `later` are what the two reads of the connection give; `approved` is whether the
  -- template of a WhatsApp broadcast is approved.
  unfoldable pub materialize :
      ℕ
      → String
      → Option Connection
      → Option Connection
      → Bool
      → (ChannelIdentity → Rendered)
      → List ChannelIdentity
      → BroadcastRows
      → BroadcastRows
  unfolding holds_lease prepare
  materialize now lease connection later approved render identities w =
      if not (holds_lease lease w)
      then w
      else if is_connected telegram connection
      then prepare now lease telegram later render identities w
      else if not (is_connected whatsapp connection)
      then fail_broadcast now lease "broadcast_channel_not_active" w
      else if approved
      then prepare now lease whatsapp later render identities w
      else fail_broadcast now lease "broadcast_whatsapp_template_not_approved" w

  -- One scan, as far as it concerns the broadcast.
  unfoldable pub scan_once :
      ℕ
      → String
      → Option Connection
      → Option Connection
      → Bool
      → (ChannelIdentity → Rendered)
      → List ChannelIdentity
      → BroadcastRows
      → BroadcastRows
  scan_once now lease connection later approved render identities w =
      let promoted = promote now w in
      if can_claim (now - 60000) promoted
      then materialize now lease connection later approved render identities
          (take_lease now lease promoted)
      else promoted
