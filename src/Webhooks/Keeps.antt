-- ===== src/Webhooks/Keeps.antt =====
-- What the handlers of internals/webhooks/handler.go keep of the tables.
use gotel_reserves.Base.{
  ℕ, String, refl, Bool, true, false, Option, none, some, List, arith, update_where,
}
use gotel_reserves.Backend.Rows.{Db, ParticipantRow, RecordingRow}
use gotel_reserves.Backend.Exec.{Result, ok, err}
use gotel_reserves.Backend.Preserves.{Preserves, preserves_rules}
use gotel_reserves.Rooms.Methods.{IsKept, IgnoresRest}
use gotel_reserves.Jobs.Keeps.{enqueue_tx-Preserves}
use gotel_reserves.Accounts.Keeps.{IsKeptByAccounts}
use gotel_reserves.Webhooks.Events.{
  WebhookEvent, EgressInfo, EgressStatus, complete, unfinished, startable, started_row, finishable,
  finished_row, handle_room_started, handle_room_finished, handle_participant_joined,
  handle_participant_left,
}
use gotel_reserves.Webhooks.Handler.{
  insert_event, insert_webhook_event, insert_recording, handle_egress_started, complete_recording,
  complete_if, handle_egress_ended, dispatch, answer, record_and_answer, handle_webhook,
}

-- An invariant of the tables `rooms` and `users` that every write of the backend keeps.
pub record IsStable (I : Db → Type 0) : Type 0 where
  pub service : IsKept I
  pub start :
      (name : String) (t : ℕ) (d : Db)
      → I d
      → I (record d { rooms = update_where (startable name) (started_row t) d.rooms })
  pub finish :
      (name : String) (t : ℕ) (d : Db)
      → I d
      → I (record d { rooms = update_where (finishable name) (finished_row t) d.rooms })
  pub accounts : IsKeptByAccounts I
  pub elsewhere : IgnoresRest I

module _ {I : Db → Type 0} (stable : IsStable I) where
  insert_event_keeps : (id type : String) (t : ℕ) (d : Db) → I d → I (insert_event id type t d).1
  unfolding insert_event
  insert_event_keeps id type t d h =
      stable.elsewhere d (insert_event id type t d).1 (ground arith) (ground arith) (ground arith) h

  insert_recording_keeps :
      (name id : String) (t : ℕ) (d : Db) → I d → I (insert_recording name id t d).1
  unfolding insert_recording
  insert_recording_keeps name id t d h =
      stable.elsewhere d (insert_recording name id t d).1 (ground arith) (ground arith)
        (ground arith) h

  insert_webhook_event-Preserves : (id type : String) → Preserves I (insert_webhook_event id type)
  unfolding insert_webhook_event
  insert_webhook_event-Preserves id type = search (preserves_rules, insert_event_keeps)

  room_started-Preserves : (e : WebhookEvent) → Preserves I (handle_room_started e)
  unfolding handle_room_started
  room_started-Preserves e = search (preserves_rules, stable.start) depth 8

  room_finished-Preserves : (e : WebhookEvent) → Preserves I (handle_room_finished e)
  unfolding handle_room_finished
  room_finished-Preserves e = search (preserves_rules, stable.finish) depth 8

  participants_keep :
      (rows : List ParticipantRow) (d : Db) → I d → I (record d { room_participants = rows })
  participants_keep rows d h = stable.elsewhere d _ refl refl (omega arith) h

  recordings_keep : (rows : List RecordingRow) (d : Db) → I d → I (record d { recordings = rows })
  recordings_keep rows d h = stable.elsewhere d _ refl refl (omega arith) h

  joined-Preserves : (e : WebhookEvent) → Preserves I (handle_participant_joined e)
  unfolding handle_participant_joined
  joined-Preserves e = search (preserves_rules, participants_keep) depth 8

  left-Preserves : (e : WebhookEvent) → Preserves I (handle_participant_left e)
  unfolding handle_participant_left
  left-Preserves e = search (preserves_rules, participants_keep) depth 8

  egress_started-Preserves : (e : WebhookEvent) → Preserves I (handle_egress_started e)
  unfolding handle_egress_started
  egress_started-Preserves e = search (preserves_rules, insert_recording_keeps) depth 8

  complete_recording-Preserves : (ei : EgressInfo) → Preserves I (complete_recording ei)
  unfolding complete_recording
  complete_recording-Preserves ei =
      search (preserves_rules, enqueue_tx-Preserves stable.elsewhere, recordings_keep) depth 8

  complete_if-Preserves :
      (status : EgressStatus) (ei : EgressInfo) → Preserves I (complete_if status ei)
  complete_if-Preserves complete ei = complete_recording-Preserves ei
  complete_if-Preserves unfinished ei = search preserves_rules

  egress_ended-Preserves : (e : WebhookEvent) → Preserves I (handle_egress_ended e)
  unfolding handle_egress_ended
  egress_ended-Preserves e = search (preserves_rules, complete_if-Preserves)

  pub dispatch-Preserves : (e : WebhookEvent) → Preserves I (dispatch e)
  unfolding dispatch
  dispatch-Preserves e =
      search
        (
          preserves_rules, room_started-Preserves, room_finished-Preserves, joined-Preserves,
          left-Preserves, egress_started-Preserves, egress_ended-Preserves,
        )
        depth 10

  answer-Preserves : (e : WebhookEvent) (r : Result Bool) → Preserves I (answer e r)
  answer-Preserves e (err x) = search preserves_rules
  answer-Preserves e (ok false) = search preserves_rules
  answer-Preserves e (ok true) = search (preserves_rules, dispatch-Preserves)

  -- No event that LiveKit sends breaks the invariant, whatever fails while it is handled.
  pub handle_webhook-Preserves : (o : Option WebhookEvent) → Preserves I (handle_webhook o)
  unfolding handle_webhook record_and_answer
  handle_webhook-Preserves none = search preserves_rules
  handle_webhook-Preserves (some e) = record {
    after = λ w i.
        (answer-Preserves e (insert_webhook_event e.id e.event w).0).after
          (insert_webhook_event e.id e.event w).1
          ((insert_webhook_event-Preserves e.id e.event).after w i);
  }
