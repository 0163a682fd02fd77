-- ===== src/Webhooks/Attendance.antt =====
-- What the events about participants leave in the table `room_participants`
-- (internals/webhooks/handler.go).
use gotel_reserves.Base.{
  ℕ, String, ◌≡◌, refl, ◌∙◌, ap, true, Option, none, some, [], string_eq, eq_refl, find, upserted,
  find-upsert_where,
}
use gotel_reserves.Backend.Rows.{ParticipantRow}
use gotel_reserves.Backend.Exec.{World, or_raise, request, statement, now, ◌>>=◌}
use gotel_reserves.Webhooks.Events.{
  WebhookEvent, ParticipantInfo, attends, upsert_participant, joined_row, rejoin, left_row, leave,
  handle_participant_joined, handle_participant_left,
}

module _ (name : String) (p : ParticipantInfo) (t : ℕ) where
  attends-joined : attends name p.identity (joined_row name p t) ≡ true
  attends-joined = rw (eq_refl name, eq_refl p.identity) refl

  attends-left : attends name p.identity (left_row name p t) ≡ true
  attends-left = rw (eq_refl name, eq_refl p.identity) refl

  -- The row of a participant who is in the room since `t`, and who had this row before, if any.
  abbrev pub present : Option ParticipantRow → ParticipantRow
  present none = record {
    room_livekit_name = name;
    identity = p.identity;
    display_name = p.name;
    joined_at = some t;
    left_at = none;
  }
  present (some old) = record old { joined_at = some t; left_at = none }

  rejoined : (o : Option ParticipantRow) → upserted (rejoin t) (joined_row name p t) o ≡ present o
  rejoined none = refl
  rejoined (some old) = refl

  gone : (o : Option ParticipantRow) → (upserted (leave t) (left_row name p t) o).left_at ≡ some t
  gone none = refl
  gone (some old) = refl

module _ (e : WebhookEvent) (name : String) (p : ParticipantInfo) (w : World) where
  after_join :
      w.faults ≡ []
      → e.room ≡ some name
      → e.participant ≡ some p
      → (handle_participant_joined e w).1.db.room_participants
        ≡ upsert_participant
            (rejoin (now w).1.clock)
            (joined_row name p (now w).1.clock)
            w.db.room_participants
  unfolding handle_participant_joined or_raise request statement ◌>>=◌ now
  after_join f r q = rw (r, q, f) refl

  after_leave :
      w.faults ≡ []
      → e.room ≡ some name
      → e.participant ≡ some p
      → (handle_participant_left e w).1.db.room_participants
        ≡ upsert_participant
            (leave (now w).1.clock)
            (left_row name p (now w).1.clock)
            w.db.room_participants
  unfolding handle_participant_left or_raise request statement ◌>>=◌ now
  after_leave f r q = rw (r, q, f) refl

  -- Where nothing fails, after the event that a participant joined, the attendance has a row of that
  -- participant and room that says when, and that the participant has not left: for the rest it is the
  -- old one if there was one, and else it has the name that the event tells.
  pub joined_present :
      w.faults ≡ []
      → e.room ≡ some name
      → e.participant ≡ some p
      → let d' = (handle_participant_joined e w).1.db in
        (row : ParticipantRow) × (find (attends name p.identity) d'.room_participants ≡ some row)
        × (row
            ≡ present name p
                (now w).1.clock
                (find (attends name p.identity) w.db.room_participants))
  unfolding upsert_participant
  joined_present f r q =
      let t = (now w).1.clock in
      (
        upserted (rejoin t) (joined_row name p t)
            (find (attends name p.identity) w.db.room_participants),
        ap (find (attends name p.identity)) (after_join f r q)
            ∙ find-upsert_where (attends name p.identity) (rejoin t) (joined_row name p t)
                (attends-joined name p t) (λ x h. h) w.db.room_participants,
        rejoined name p t (find (attends name p.identity) w.db.room_participants),
      )

  -- Where nothing fails, after the event that a participant left, the attendance has a row of that
  -- participant and room that says when, also where the joining was never reported.
  pub left_dated :
      w.faults ≡ []
      → e.room ≡ some name
      → e.participant ≡ some p
      → let d' = (handle_participant_left e w).1.db in
        (row : ParticipantRow) × (find (attends name p.identity) d'.room_participants ≡ some row)
        × (row.left_at ≡ some (now w).1.clock)
  unfolding upsert_participant
  left_dated f r q =
      let t = (now w).1.clock in
      (
        upserted (leave t) (left_row name p t)
            (find (attends name p.identity) w.db.room_participants),
        ap (find (attends name p.identity)) (after_leave f r q)
            ∙ find-upsert_where (attends name p.identity) (leave t) (left_row name p t)
                (attends-left name p t) (λ x h. h) w.db.room_participants,
        gone name p t (find (attends name p.identity) w.db.room_participants),
      )
