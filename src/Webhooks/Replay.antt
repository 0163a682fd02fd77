-- ===== src/Webhooks/Replay.antt =====
-- What happens when LiveKit sends an event again (internals/webhooks/handler.go).
use gotel_reserves.Base.{
  ℕ, String, ◌≡◌, refl, Bool, true, false, some, List, [], ◌∷◌, ◌++◌, arith, eq_refl, exists,
}
use gotel_reserves.Backend.Rows.{WebhookEventRow, Db}
use gotel_reserves.Backend.Exec.{
  Result, ok, err, World, request, statement, now, ◌>>=◌, logged, pure,
}
use gotel_reserves.Backend.Preserves.{Preserves, preserves_rules}
use gotel_reserves.Backend.Rows.{Job, JobType, Payload}
use gotel_reserves.Jobs.Client.{insert_job, enqueue_tx}
use gotel_reserves.Jobs.Keeps.{push_ready-Preserves}
use gotel_reserves.Webhooks.Events.{
  WebhookEvent, EgressInfo, EgressStatus, complete, unfinished, handle_room_started,
  handle_room_finished, handle_participant_joined, handle_participant_left,
}
use gotel_reserves.Webhooks.Handler.{
  has_event_id, insert_event, insert_webhook_event, insert_recording, handle_egress_started,
  complete_recording, complete_if, handle_egress_ended, dispatch, answer, record_and_answer,
  handle_webhook,
}

-- The log of events is this list.
abbrev LogIs : List WebhookEventRow → Db → Type 0
LogIs events d = d.webhook_events ≡ events

module _ {events : List WebhookEventRow} where
  insert_job_log : (job : Job) (d : Db) → LogIs events d → LogIs events (insert_job job d).1
  unfolding insert_job
  insert_job_log job d h = ground arith

  insert_recording_log :
      (name id : String) (t : ℕ) (d : Db)
      → LogIs events d
      → LogIs events (insert_recording name id t d).1
  unfolding insert_recording
  insert_recording_log name id t d h = ground arith

  enqueue_tx_log : (type : JobType) (p : Payload) → Preserves (LogIs events) (enqueue_tx type p)
  unfolding enqueue_tx
  enqueue_tx_log type p = search (preserves_rules, insert_job_log, push_ready-Preserves) depth 10

  started_log : (e : WebhookEvent) → Preserves (LogIs events) (handle_room_started e)
  unfolding handle_room_started
  started_log e = search preserves_rules depth 8

  finished_log : (e : WebhookEvent) → Preserves (LogIs events) (handle_room_finished e)
  unfolding handle_room_finished
  finished_log e = search preserves_rules depth 8

  joined_log : (e : WebhookEvent) → Preserves (LogIs events) (handle_participant_joined e)
  unfolding handle_participant_joined
  joined_log e = search preserves_rules depth 8

  left_log : (e : WebhookEvent) → Preserves (LogIs events) (handle_participant_left e)
  unfolding handle_participant_left
  left_log e = search preserves_rules depth 8

  egress_started_log : (e : WebhookEvent) → Preserves (LogIs events) (handle_egress_started e)
  unfolding handle_egress_started
  egress_started_log e = search (preserves_rules, insert_recording_log) depth 8

  complete_recording_log : (ei : EgressInfo) → Preserves (LogIs events) (complete_recording ei)
  unfolding complete_recording
  complete_recording_log ei = search (preserves_rules, enqueue_tx_log) depth 8

  complete_if_log :
      (s : EgressStatus) (ei : EgressInfo) → Preserves (LogIs events) (complete_if s ei)
  complete_if_log complete ei = complete_recording_log ei
  complete_if_log unfinished ei = search preserves_rules

  egress_ended_log : (e : WebhookEvent) → Preserves (LogIs events) (handle_egress_ended e)
  unfolding handle_egress_ended
  egress_ended_log e = search (preserves_rules, complete_if_log)

  dispatch_log : (e : WebhookEvent) → Preserves (LogIs events) (logged (dispatch e))
  unfolding dispatch
  dispatch_log e =
      search
        (
          preserves_rules, started_log, finished_log, joined_log, left_log, egress_started_log,
          egress_ended_log,
        )
        depth 12

-- An event that the log holds changes neither the tables, nor Redis, nor the LiveKit server.
pub handle_webhook_again :
    (e : WebhookEvent) (w : World)
    → exists (has_event_id e.id) w.db.webhook_events ≡ true
    → let w' = (handle_webhook (some e) w).1 in
      (w'.db ≡ w.db) × (w'.redis ≡ w.redis) × (w'.calls ≡ w.calls)
unfolding handle_webhook record_and_answer insert_webhook_event insert_event statement request now
    ◌>>=◌
handle_webhook_again e w h = (ground arith, ground arith, ground arith)

exists-recorded :
    (id type : String) (t : ℕ) (events : List WebhookEventRow)
    → exists
        (has_event_id id)
        (events ++ record { event_id = id; event_type = type; received_at = t } ∷ [])
      ≡ true
exists-recorded id type t [] = rw (eq_refl id)
exists-recorded id type t (x ∷ events) = ground (arith, exists-recorded id type t events)

insert_webhook_event-logs :
    (e : WebhookEvent) (w : World) (b : Bool)
    → (insert_webhook_event e.id e.event w).0 ≡ ok b
    → exists (has_event_id e.id) (insert_webhook_event e.id e.event w).1.db.webhook_events ≡ true
unfolding insert_webhook_event insert_event statement request now ◌>>=◌
insert_webhook_event-logs e w b h =
    ground (arith, exists-recorded e.id e.event (now w).1.clock w.db.webhook_events)

answer_logged :
    (e : WebhookEvent) (r : Result Bool) (w : World)
    → ((b : Bool) → r ≡ ok b → exists (has_event_id e.id) w.db.webhook_events ≡ true)
    → (answer e r w).0 ≡ ok 200
    → exists (has_event_id e.id) (answer e r w).1.db.webhook_events ≡ true
unfolding pure ◌>>=◌ logged
answer_logged e (err x) w h k = ground arith
answer_logged e (ok false) w h k = h false refl
answer_logged e (ok true) w h k = rw ((dispatch_log e).after w refl) (h true refl)

-- Once an event was answered with 200, the log holds it. When it comes again to tables whose log holds it,
-- whatever else they went through, it has no effect: neither on the tables, nor on Redis, nor on the
-- LiveKit server.
pub handle_webhook_once :
    (e : WebhookEvent) (w v : World)
    → (handle_webhook (some e) w).0 ≡ ok 200
    → exists (has_event_id e.id) v.db.webhook_events ≡ true
    → let v' = (handle_webhook (some e) v).1 in
      (exists (has_event_id e.id) (handle_webhook (some e) w).1.db.webhook_events ≡ true)
      × (v'.db ≡ v.db)
      × (v'.redis ≡ v.redis)
      × (v'.calls ≡ v.calls)
unfolding handle_webhook record_and_answer
handle_webhook_once e w v h logged =
    let (tables, queues, calls) = handle_webhook_again e v logged in
    (
      answer_logged e (insert_webhook_event e.id e.event w).0
          (insert_webhook_event e.id e.event w).1 (λ b k. insert_webhook_event-logs e w b k) h,
      tables,
      queues,
      calls,
    )
