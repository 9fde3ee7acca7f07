-- ===== src/Broadcasts/Tests.antt =====
-- Runs of apps/worker/src/broadcasts/broadcast-preparation.service.ts and of the control of a broadcast,
-- and the theorems at them.
use manychat.Prelude.{String, true, List, [], ◌∷◌, Option, none, some, map, ◌≡◌, refl}
use manychat.Broadcasts.State.{
  BroadcastStatus, draft, running, paused, pending, queued, telegram, ChannelIdentity, Broadcast,
  Recipient, BroadcastRows, update_recipients, complete_if_terminal,
}
use manychat.Broadcasts.Preparation.{
  Rendered, content, goes_on, Connection, scan_once, promote, can_claim, materialize, queue_all,
  queue_recipient, create_recipients,
}
use manychat.Broadcasts.Control.{changed, launch, resume}
use manychat.Broadcasts.Stuck.{IsStuck, resumes, here, next, paused_preparation-IsStuck}

abbrev same : String → String
same s = s

abbrev no_broadcast : Broadcast
no_broadcast = record {
  status = draft;
  scheduled_at = none;
  started_at = none;
  completed_at = none;
  paused_at = none;
  cancelled_at = none;
  failed_at = none;
  error_code = none;
  preparation_locked_at = none;
  preparation_locked_by = none;
}

abbrev drafted : BroadcastRows
drafted = record {
  broadcast = no_broadcast;
  recipients = [];
  conversations = [];
  messages = [];
  outbox = [];
}

abbrev launched : BroadcastRows
launched = record drafted {
  broadcast = record no_broadcast { status = BroadcastStatus.preparing; started_at = some 5 };
}

launch_run : launch 5 drafted ≡ changed launched
unfolding launch
launch_run = refl

abbrev audience : List ChannelIdentity
audience =
    record { id = "i1"; contact_id = "c1"; external_user_id = "x1" }
    ∷ record { id = "i2"; contact_id = "c2"; external_user_id = "x2" }
    ∷ []

abbrev plain_content : ChannelIdentity → Rendered
plain_content i = content

abbrev telegram_on : Option Connection
telegram_on = some (record { connected = true; type = some telegram })

abbrev prepared : BroadcastRows
prepared =
    scan_once same same same 70000 "lease" telegram_on telegram_on true plain_content audience
      launched

prepared_recipients : map (λ (r : Recipient). r.status) prepared.recipients ≡ queued ∷ queued ∷ []
unfolding scan_once promote can_claim materialize create_recipients update_recipients queue_all
    queue_recipient complete_if_terminal
prepared_recipients = refl

prepared_status : prepared.broadcast.status ≡ running
unfolding scan_once promote can_claim materialize create_recipients update_recipients queue_all
    queue_recipient complete_if_terminal
prepared_status = refl

-- Paused when the first of two recipients has been queued.
abbrev waiting_recipient : Recipient
waiting_recipient = record {
  id = "i2";
  contact_id = "c2";
  channel_identity_id = "i2";
  message_id = none;
  outbox_record_id = none;
  status = pending;
  queued_at = none;
  completed_at = none;
  last_error = none;
}

abbrev halfway : BroadcastRows
halfway = record drafted {
  broadcast = record no_broadcast { status = paused; paused_at = some 6 };
  recipients = waiting_recipient ∷ [];
}

abbrev resumed : BroadcastRows
resumed = record halfway { broadcast = record no_broadcast { status = running } }

resume_run : resume (complete_if_terminal 7 halfway) ≡ changed resumed
unfolding resume complete_if_terminal
resume_run = refl

paused_preparation-IsStuck_example :
    (queue_all same same same 7 plain_content audience (waiting_recipient ∷ []) halfway
      ≡ goes_on halfway)
    × IsStuck same same same "i2" resumed
paused_preparation-IsStuck_example =
    paused_preparation-IsStuck same same same 7 plain_content audience (waiting_recipient ∷ []) "i2"
      halfway resumed (λ i. refl) refl refl (next here (resumes resume_run))
