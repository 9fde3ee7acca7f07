-- ===== src/Broadcasts/Stuck.antt =====
-- What becomes of recipients that are still pending when the preparation of a broadcast has gone past
-- them: apps/worker/src/broadcasts/broadcast-preparation.service.ts only takes up a broadcast that is
-- PREPARING, and apps/api/src/broadcasts/broadcasts.service.ts only queues again what was queued.
use manychat.Prelude.{
  ℕ, ◌-◌, String, Bool, true, false, not, List, [], ◌∷◌, Option, none, some, any, find, ◌==◌, ◌≡◌,
  ◌∙◌, refl, arith,
}
use manychat.Broadcasts.State.{
  BroadcastStatus, running, paused, Recipient, ChannelIdentity, BroadcastRows, is_pending, is_open,
  update_recipients, write_recipients, complete_if_terminal,
}
use manychat.Broadcasts.Preparation.{
  Rendered, content, goes_on, Connection, promote, can_claim, is_pending_one, queue_recipient,
  queue_one, queue_all, scan_once,
}
use manychat.Broadcasts.Control.{
  changed, launch, pause_broadcast, resume, retry_failed, archive, restore, is_retryable, requeue,
}

abbrev pub is_started : BroadcastStatus → Bool
is_started running = true
is_started paused = true
is_started _ = false

module _ (new_recipient_id new_message_id new_outbox_id : String → String) where
  abbrev pub pending_one : String → BroadcastRows → Bool
  pending_one id w =
      any (is_pending_one new_recipient_id new_message_id new_outbox_id id) w.recipients

  -- A recipient is pending in a broadcast that runs or is paused.
  pub record IsStuck (id : String) (w : BroadcastRows) : Type 0 where
    pub is_left : pending_one id w ≡ true
    pub has_started : is_started w.broadcast.status ≡ true

  -- What the worker and the API do with a broadcast, but for cancelling it.
  pub data Move (w after : BroadcastRows) : Type 0 where
    scans :
        (now : ℕ) (lease : String) (connection later : Option Connection) (approved : Bool)
        (render : ChannelIdentity → Rendered) (identities : List ChannelIdentity)
        → after
          ≡ scan_once new_recipient_id new_message_id new_outbox_id now lease connection later
              approved render identities w
        → Move w after
    launches : (now : ℕ) → launch now w ≡ changed after → Move w after
    pauses : (now : ℕ) → pause_broadcast now w ≡ changed after → Move w after
    resumes : resume w ≡ changed after → Move w after
    retries : retry_failed w ≡ changed after → Move w after
    archives : archive w ≡ changed after → Move w after
    restores : restore w ≡ changed after → Move w after
    -- The processors of outgoing messages write recipients that have been queued.
    delivers :
        (change : Recipient → Recipient)
        → after ≡ write_recipients (λ r. not (is_pending r.status)) change w
        → Move w after
    completes : (now : ℕ) → after ≡ complete_if_terminal now w → Move w after

  pub data Reach (w : BroadcastRows) : BroadcastRows → Type 0 where
    here : Reach w w
    next : {middle after : BroadcastRows} → Reach w middle → Move middle after → Reach w after

  promote-IsStuck : (id : String) (now : ℕ) (w : BroadcastRows) → IsStuck id w → promote now w ≡ w
  unfolding promote
  promote-IsStuck id now w s = ground arith

  unclaimable : (id : String) (t : ℕ) (w : BroadcastRows) → IsStuck id w → can_claim t w ≡ false
  unfolding can_claim
  unclaimable id t w s = ground arith

  scan-IsStuck :
      (id : String) (now : ℕ) (lease : String) (connection later : Option Connection)
      (approved : Bool) (render : ChannelIdentity → Rendered) (identities : List ChannelIdentity)
      (w : BroadcastRows)
      → IsStuck id w
      → scan_once new_recipient_id new_message_id new_outbox_id now lease connection later approved
          render identities w
        ≡ w
  unfolding scan_once
  scan-IsStuck id now lease connection later approved render identities w s =
      rw (promote-IsStuck id now w s) (rw (unclaimable id (now - 60000) w s) refl)

  -- `retryFailed` takes up recipients that have failed, and no pending one.
  pending-requeue :
      (id : String) (rows : List Recipient)
      → any
          (is_pending_one new_recipient_id new_message_id new_outbox_id id)
          (update_recipients is_retryable requeue rows)
        ≡ any (is_pending_one new_recipient_id new_message_id new_outbox_id id) rows
  unfolding update_recipients
  pending-requeue id [] = refl
  pending-requeue id (r ∷ rows) = ground (arith, pending-requeue id rows)

  -- Neither does what changes no pending recipient.
  pending-delivered :
      (id : String) (change : Recipient → Recipient) (rows : List Recipient)
      → any (is_pending_one new_recipient_id new_message_id new_outbox_id id) rows ≡ true
      → any
          (is_pending_one new_recipient_id new_message_id new_outbox_id id)
          (update_recipients (λ r. not (is_pending r.status)) change rows)
        ≡ true
  unfolding update_recipients
  pending-delivered id change [] h = h
  pending-delivered id change (r ∷ rows) h = ground (arith, pending-delivered id change rows)

  open-pending :
      (id : String) (rows : List Recipient)
      → any (is_pending_one new_recipient_id new_message_id new_outbox_id id) rows ≡ true
      → any (λ (r : Recipient). is_open r.status) rows ≡ true
  open-pending id [] h = h
  open-pending id (r ∷ rows) h = ground (arith, open-pending id rows)

  complete-IsStuck :
      (id : String) (now : ℕ) (w : BroadcastRows) → IsStuck id w → complete_if_terminal now w ≡ w
  unfolding complete_if_terminal
  complete-IsStuck id now w s = rw (open-pending id w.recipients s.is_left)

  Move-IsStuck :
      (id : String) {w after : BroadcastRows} → Move w after → IsStuck id w → IsStuck id after
  unfolding pause_broadcast launch resume retry_failed archive restore
  Move-IsStuck id {w} (scans now lease c l a render identities e) s =
      rw (e ∙ scan-IsStuck id now lease c l a render identities w s) s
  Move-IsStuck id {w} {after} (launches now e) s = ground arith
  Move-IsStuck id {w} {after} (pauses now e) s = ground arith
  Move-IsStuck id {w} {after} (resumes e) s = ground arith
  Move-IsStuck id {w} {after} (retries e) s = ground (arith, pending-requeue id w.recipients)
  Move-IsStuck id {w} {after} (archives e) s = ground arith
  Move-IsStuck id {w} {after} (restores e) s = ground arith
  Move-IsStuck id {w} (delivers change e) s = rw e (record {
    is_left = pending-delivered id change w.recipients s.is_left;
    has_started = s.has_started;
  })
  Move-IsStuck id {w} (completes now e) s = rw (e ∙ complete-IsStuck id now w s) s

  queue_one-paused :
      (now : ℕ) (render : ChannelIdentity → Rendered) (id : String) (o : Option ChannelIdentity)
      (w : BroadcastRows)
      → ((i : ChannelIdentity) → render i ≡ content)
      → w.broadcast.status ≡ paused
      → queue_one new_recipient_id new_message_id new_outbox_id now render id o w ≡ goes_on w
  unfolding queue_recipient
  queue_one-paused now render id none w c p = refl
  queue_one-paused now render id (some identity) w c p = rw (c identity) (rw p refl)

  queue_all-paused :
      (now : ℕ) (render : ChannelIdentity → Rendered) (identities : List ChannelIdentity)
      (recipients : List Recipient) (w : BroadcastRows)
      → ((i : ChannelIdentity) → render i ≡ content)
      → w.broadcast.status ≡ paused
      → queue_all new_recipient_id new_message_id new_outbox_id now render identities recipients w
        ≡ goes_on w
  unfolding queue_all
  queue_all-paused now render identities [] w c p = refl
  queue_all-paused now render identities (r ∷ recipients) w c p =
      rw
        (
          queue_one-paused now render r.id
              (find (λ (i : ChannelIdentity). i.id == r.channel_identity_id) identities) w c p,
          queue_all,
        )
        (queue_all-paused now render identities recipients w c p)

  Reach-IsStuck :
      (id : String) {w after : BroadcastRows} → Reach w after → IsStuck id w → IsStuck id after
  Reach-IsStuck id here s = s
  Reach-IsStuck id (next r m) s = Move-IsStuck id m (Reach-IsStuck id r s)

  -- A broadcast is paused while its recipients are being queued, and the content can be rendered in full
  -- for each of them (the loop sets a recipient that lacks a variable FAILED, also during a pause). Then
  -- the rest of the loop does nothing, and
  -- from then on a recipient that was not queued yet stays pending, whatever scans, pauses, resumes,
  -- retries, launches, archivings, restorings and deliveries of queued recipients follow.
  pub paused_preparation-IsStuck :
      (now : ℕ) (render : ChannelIdentity → Rendered) (identities : List ChannelIdentity)
      (recipients : List Recipient) (id : String) (w after : BroadcastRows)
      → ((i : ChannelIdentity) → render i ≡ content)
      → w.broadcast.status ≡ paused
      → pending_one id w ≡ true
      → Reach (complete_if_terminal now w) after
      → (queue_all new_recipient_id new_message_id new_outbox_id now render identities recipients w
          ≡ goes_on w)
        × IsStuck id after
  paused_preparation-IsStuck now render identities recipients id w after c p left r =
      let start : IsStuck id w = record { is_left = left; has_started = rw p refl } in
      (
        queue_all-paused now render identities recipients w c p,
        Reach-IsStuck id r (rw (complete-IsStuck id now w start) start),
      )
