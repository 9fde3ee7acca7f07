-- ===== src/Broadcasts/Control.antt =====
-- `launch`, `pause`, `resume`, `cancel`, `retryFailed`, `archive` and `restore` of
-- apps/api/src/broadcasts/broadcasts.service.ts, for one broadcast: the new rows, or the code of the
-- conflict. Reads, audit events and queue jobs are left out.
use manychat.Prelude.{
  ℕ, String, Bool, true, false, ◌&&◌, ◌||◌, List, [], ◌∷◌, Option, none, some, any, ◌==◌,
  if◌then◌else◌,
}
use manychat.HttpOutbox.Row.{OutboxRecordStatus}
use manychat.Broadcasts.State.{
  BroadcastStatus, draft, scheduled, preparing, running, paused, completed, cancelled, failed,
  archived, RecipientStatus, Broadcast, Recipient, Message, MessageStatus, Outgoing, BroadcastRows,
  is_running, is_pending, is_queued, is_failed, update_recipients,
}

pub data Change : Type 0 where
  conflict : String → Change
  changed : BroadcastRows → Change

abbrev pub with_broadcast : (Broadcast → Broadcast) → BroadcastRows → BroadcastRows
with_broadcast f w = record w { broadcast = f w.broadcast }

abbrev pub can_launch : BroadcastStatus → Bool
can_launch draft = true
can_launch scheduled = true
can_launch _ = false

-- The checks of the connection and the template, which come first, are the caller's.
unfoldable pub launch : ℕ → BroadcastRows → Change
launch now w =
    if can_launch w.broadcast.status
    then changed (
        with_broadcast
          (λ b. record b { status = preparing; started_at = some now; scheduled_at = none }) w)
    else conflict "BROADCAST_CANNOT_LAUNCH"

unfoldable pub pause_broadcast : ℕ → BroadcastRows → Change
pause_broadcast now w =
    if is_running w.broadcast.status
    then changed (with_broadcast (λ b. record b { status = paused; paused_at = some now }) w)
    else conflict "BROADCAST_CANNOT_PAUSE"

abbrev pub is_paused : BroadcastStatus → Bool
is_paused paused = true
is_paused _ = false

abbrev pub is_retry : OutboxRecordStatus → Bool
is_retry OutboxRecordStatus.retry = true
is_retry _ = false

-- `resume`. The outbox records that wait for a retry are only made due.
unfoldable pub resume : BroadcastRows → Change
resume w =
    if is_paused w.broadcast.status
    then changed (with_broadcast (λ b. record b { status = running; paused_at = none }) w)
    else conflict "BROADCAST_CANNOT_RESUME"

abbrev pub can_cancel : BroadcastStatus → Bool
can_cancel draft = true
can_cancel scheduled = true
can_cancel preparing = true
can_cancel running = true
can_cancel paused = true
can_cancel _ = false

abbrev pub is_cancellable : Recipient → Bool
is_cancellable r = is_pending r.status || is_queued r.status

abbrev pub cancel_recipient : ℕ → Recipient → Recipient
cancel_recipient now r = record r {
  status = RecipientStatus.cancelled;
  completed_at = some now;
  last_error = some "broadcast_cancelled";
}

abbrev pub names : String → Option String → Bool
names id none = false
names id (some other) = other == id

abbrev pub is_queued_message : MessageStatus → Bool
is_queued_message MessageStatus.queued = true
is_queued_message _ = false

unfoldable pub fail_messages : (Recipient → Bool) → List Recipient → List Message → List Message
fail_messages test recipients [] = []
fail_messages test recipients (m ∷ messages) =
    (if is_queued_message m.status
        && any (λ (r : Recipient). test r && names m.id r.message_id) recipients
      then record m { status = MessageStatus.failed }
      else m)
    ∷ fail_messages test recipients messages

-- `{ status: { in: ['PENDING', 'RETRY'] } }`
abbrev pub is_unsent : OutboxRecordStatus → Bool
is_unsent OutboxRecordStatus.pending = true
is_unsent OutboxRecordStatus.retry = true
is_unsent _ = false

unfoldable pub fail_outbox : (Recipient → Bool) → List Recipient → List Outgoing → List Outgoing
fail_outbox test recipients [] = []
fail_outbox test recipients (o ∷ outbox) =
    (if is_unsent o.status
        && any (λ (r : Recipient). test r && names o.id r.outbox_record_id) recipients
      then record o { status = OutboxRecordStatus.failed; last_error = some "broadcast_cancelled" }
      else o)
    ∷ fail_outbox test recipients outbox

unfoldable pub cancel : ℕ → BroadcastRows → Change
unfolding fail_messages fail_outbox
cancel now w =
    if can_cancel w.broadcast.status
    then changed (record w {
      broadcast = record w.broadcast { status = cancelled; cancelled_at = some now };
      recipients = update_recipients is_cancellable (cancel_recipient now) w.recipients;
      messages = fail_messages is_cancellable w.recipients w.messages;
      outbox = fail_outbox is_cancellable w.recipients w.outbox;
    })
    else conflict "BROADCAST_CANNOT_CANCEL"

abbrev pub is_retryable : Recipient → Bool
is_retryable r = is_failed r.status && elim r.outbox_record_id [ none ↦ false | some id ↦ true ]

abbrev pub requeue : Recipient → Recipient
requeue r = record r { status = RecipientStatus.queued; last_error = none; completed_at = none }

unfoldable pub requeue_messages : List Recipient → List Message → List Message
requeue_messages recipients [] = []
requeue_messages recipients (m ∷ messages) =
    (if any (λ (r : Recipient). is_retryable r && names m.id r.message_id) recipients
      then record m { status = MessageStatus.queued }
      else m)
    ∷ requeue_messages recipients messages

abbrev pub is_failed_record : OutboxRecordStatus → Bool
is_failed_record OutboxRecordStatus.failed = true
is_failed_record _ = false

unfoldable pub requeue_outbox : List Recipient → List Outgoing → List Outgoing
requeue_outbox recipients [] = []
requeue_outbox recipients (o ∷ outbox) =
    (if is_failed_record o.status
        && any (λ (r : Recipient). is_retryable r && names o.id r.outbox_record_id) recipients
      then record o { status = OutboxRecordStatus.pending; last_error = none }
      else o)
    ∷ requeue_outbox recipients outbox

unfoldable pub retry_failed : BroadcastRows → Change
unfolding requeue_messages requeue_outbox
retry_failed w =
    if is_running w.broadcast.status
    then changed (record w {
      recipients = update_recipients is_retryable requeue w.recipients;
      messages = requeue_messages w.recipients w.messages;
      outbox = requeue_outbox w.recipients w.outbox;
    })
    else conflict "BROADCAST_NOT_RUNNING"

abbrev pub must_be_stopped : BroadcastStatus → Bool
must_be_stopped preparing = true
must_be_stopped running = true
must_be_stopped paused = true
must_be_stopped _ = false

unfoldable pub archive : BroadcastRows → Change
archive w =
    if must_be_stopped w.broadcast.status
    then conflict "BROADCAST_MUST_BE_STOPPED"
    else changed (with_broadcast (λ b. record b { status = archived }) w)

abbrev pub is_archived : BroadcastStatus → Bool
is_archived archived = true
is_archived _ = false

abbrev pub restored_status : Broadcast → BroadcastStatus
restored_status b = elim b.completed_at [
  | some t ↦ completed
  | none ↦ elim b.cancelled_at [
    | some t ↦ cancelled
    | none ↦ elim b.failed_at [ some t ↦ failed | none ↦ draft ]
  ]
]

unfoldable pub restore : BroadcastRows → Change
restore w =
    if is_archived w.broadcast.status
    then changed (with_broadcast (λ b. record b { status = restored_status b }) w)
    else conflict "BROADCAST_NOT_ARCHIVED"
