-- ===== src/Insights/Progress.antt =====
-- internals/insights/handler.go shows the room's own rows, and the step that they are evidence of.
use gotel_reserves.Base.{
  ℕ, ◌≡◌, ◌≢◌, refl, sym, ap, ◌∙◌, String, Bool, false, Option, none, some, List, [], ◌==◌, nat_eq,
  string_eq, arith, eq_iff, if◌then◌else◌, find, exists, find_test, select, latest, latest_sound,
  is_some, is_some-latest, All-select, Option-cases, inl, inr, has_key, DistinctKeys, key-finds_row,
}
use gotel_reserves.Backend.Rows.{
  RoomStatus, RoomRow, RecordingStatus, RecordingRow, TranscriptRow, SummaryRow, Db, ended,
}
use gotel_reserves.Backend.Exec.{
  World, Result, ok, err, pure, statement, request, on_result, not_found, ◌>>=◌,
}
use gotel_reserves.Rooms.Repository.{has_name}
use gotel_reserves.Insights.Reading.{
  shown, query_row, latest_transcript, latest_summary, transcript_by_id, summary_by_id,
}
use gotel_reserves.Insights.Pipeline.{
  Status, Step, State, InsightsResponse, latest_recording, mapped, state_of, find_state,
  attach_transcript, attach_summary, respond_with, handle_get_by_room_name, step_of,
}

module _ {A : Type 0} where
  abbrev answer_of : Option A → Result A
  answer_of none = err not_found
  answer_of (some a) = ok a

  query_row_run :
      (f : Db → Option A) (w : World) → w.faults ≡ [] → query_row f w ≡ (answer_of (f w.db), w)
  unfolding ◌>>=◌ statement request
  query_row_run f w e = elim (Option-cases (f w.db)) [
    | inl h ↦ rw (e, h) refl
    | inr (x, h) ↦ rw (e, h) refl
  ]

abbrev pub transcript_id : TranscriptRow → ℕ
transcript_id t = t.id

abbrev pub summary_id : SummaryRow → ℕ
summary_id s = s.id

-- What the rows of a room are evidence of: the step that the pipeline is at.
abbrev recording_step : Option RecordingRow → RoomStatus → Step
recording_step (some r) room = elim r.status [
  | RecordingStatus.completed ↦ Step.transcribing
  | RecordingStatus.recording ↦ Step.recording
  | RecordingStatus.failed ↦ Step.failed
]
recording_step none ended = Step.finalizing
recording_step none _ = Step.live

abbrev pub progress : String → RoomStatus → Db → Step
progress name room d =
    if exists (λ (s : SummaryRow). s.room_livekit_name == name) d.summaries
    then Step.completed
    else if exists (λ (t : TranscriptRow). t.room_livekit_name == name) d.transcripts
    then Step.summarizing
    else recording_step (latest_recording name d) room

-- The row that is attached is the one whose number was scanned.
latest_own :
    {A : Type 0} (moment key : A → ℕ) (p : A → Bool) (xs : List A) (x : A)
    → DistinctKeys key xs
    → latest moment (select p xs) ≡ some x
    → find (has_key key (key x)) xs ≡ some x
latest_own moment key p xs x apart h =
    latest_sound moment (λ y. find (has_key key (key y)) xs ≡ some y) (select p xs) x
      (All-select _ p xs (key-finds_row key xs apart)) h

abbrev pub status_at : Step → Status
status_at Step.live = Status.live
status_at Step.completed = Status.completed
status_at Step.failed = Status.failed
status_at _ = Status.processing

-- What the `switch` leaves empty, and how it names a step's status.
step_of_lem :
    (name : String) (s : State)
    → let resp = step_of name s in
      (resp.transcript ≡ none)
      × (resp.summary ≡ none)
      × (resp.status ≡ status_at resp.step)
      × (resp.room_livekit_name ≡ name)
unfolding step_of
step_of_lem name s = ground arith

step_of_rows :
    (name : String) (room : RoomStatus) (recording : Option RecordingRow)
    (transcript : Option TranscriptRow) (summary : Option SummaryRow)
    → (step_of name (record {
      room_status = room;
      recording_status = mapped (λ (x : RecordingRow). x.status) recording;
      transcript_id = mapped transcript_id transcript;
      summary_id = mapped summary_id summary;
    })).step
      ≡ (if is_some summary
          then Step.completed
          else if is_some transcript
          then Step.summarizing
          else recording_step recording room)
unfolding step_of
step_of_rows name room recording transcript (some s) = refl
step_of_rows name room recording (some t) none = refl
step_of_rows name room none none none = ground arith
step_of_rows name room (some r) none none = ground arith

step_of-progress :
    (name : String) (r : RoomRow) (d : Db)
    → r.livekit_room_name ≡ name
    → (step_of name (state_of d r)).step ≡ progress name r.status d
step_of-progress name r d e =
    rw
      (
        e,
        sym (
            is_some-latest (λ (s : SummaryRow). s.created_at) (λ s. s.room_livekit_name == name)
              d.summaries),
        sym (
            is_some-latest (λ (t : TranscriptRow). t.created_at) (λ t. t.room_livekit_name == name)
              d.transcripts),
      )
      (step_of_rows name r.status (latest_recording name d) (latest_transcript name d)
        (latest_summary name d))

abbrev with_own_transcript : Option TranscriptRow → InsightsResponse → InsightsResponse
with_own_transcript none resp = resp
with_own_transcript (some t) resp = record resp { transcript = some t }

abbrev with_own_summary : Option SummaryRow → InsightsResponse → InsightsResponse
with_own_summary none resp = resp
with_own_summary (some s) resp = record resp { summary = some s }

module _ (w : World) (f : w.faults ≡ []) where
  attach_transcript_run :
      (o : Option TranscriptRow) (resp : InsightsResponse)
      → ((x : TranscriptRow) → o ≡ some x → transcript_by_id x.id w.db ≡ some x)
      → attach_transcript (mapped transcript_id o) resp w ≡ (ok (with_own_transcript o resp), w)
  unfolding on_result pure
  attach_transcript_run none resp h = refl
  attach_transcript_run (some x) resp h =
      rw (query_row_run (transcript_by_id x.id) w f, h x refl) refl

  attach_summary_run :
      (o : Option SummaryRow) (resp : InsightsResponse)
      → ((x : SummaryRow) → o ≡ some x → summary_by_id x.id w.db ≡ some x)
      → attach_summary (mapped summary_id o) resp w ≡ (ok (with_own_summary o resp), w)
  unfolding on_result pure
  attach_summary_run none resp h = refl
  attach_summary_run (some x) resp h = rw (query_row_run (summary_by_id x.id) w f, h x refl) refl

  own_transcript :
      (name : String)
      → DistinctKeys transcript_id w.db.transcripts
      → (x : TranscriptRow) → latest_transcript name w.db ≡ some x
      → transcript_by_id x.id w.db ≡ some x
  own_transcript name apart x =
      latest_own (λ (t : TranscriptRow). t.created_at) transcript_id _ w.db.transcripts x apart

  own_summary :
      (name : String)
      → DistinctKeys summary_id w.db.summaries
      → (x : SummaryRow) → latest_summary name w.db ≡ some x
      → summary_by_id x.id w.db ≡ some x
  own_summary name apart x =
      latest_own (λ (s : SummaryRow). s.created_at) summary_id _ w.db.summaries x apart

  with_both :
      (t : Option TranscriptRow) (s : Option SummaryRow) (resp : InsightsResponse)
      → resp.transcript ≡ none
      → resp.summary ≡ none
      → let resp' = with_own_summary s (with_own_transcript t resp) in
        (resp'.transcript ≡ t)
        × (resp'.summary ≡ s)
        × (resp'.step ≡ resp.step)
        × (resp'.status ≡ resp.status)
        × (resp'.room_livekit_name ≡ resp.room_livekit_name)
  with_both none none resp a b = (a, b, refl, refl, refl)
  with_both (some t) none resp a b = (refl, b, refl, refl, refl)
  with_both none (some s) resp a b = (a, refl, refl, refl, refl)
  with_both (some t) (some s) resp a b = (refl, refl, refl, refl, refl)

  respond_with_run :
      (name : String) (s : State) (t : Option TranscriptRow) (u : Option SummaryRow)
      → s.transcript_id ≡ mapped transcript_id t
      → s.summary_id ≡ mapped summary_id u
      → ((x : TranscriptRow) → t ≡ some x → transcript_by_id x.id w.db ≡ some x)
      → ((x : SummaryRow) → u ≡ some x → summary_by_id x.id w.db ≡ some x)
      → respond_with name (ok s) w
        ≡ (ok (shown (with_own_summary u (with_own_transcript t (step_of name s)))), w)
  unfolding pure ◌>>=◌
  respond_with_run name s t u et eu own_t own_u =
      rw
        (
          ap (λ o. attach_transcript o (step_of name s) w) et,
          attach_transcript_run t (step_of name s) own_t,
          ap (λ o. attach_summary o (with_own_transcript t (step_of name s)) w) eu,
          attach_summary_run u (with_own_transcript t (step_of name s)) own_u,
        )
        refl

-- Where nothing fails, and the numbers of the transcripts and those of the summaries are different, a
-- request for the insights of a room shows the latest transcript and the latest summary of that room,
-- if any, and the step that its rows are evidence of: a summary of the room that it is completed, else a
-- transcript that it is summarizing, else what its latest recording is doing, else whether the room has
-- ended. The status is that of the step. Nothing changes.
pub insights_shows :
    (name : String) (w : World) (r : RoomRow)
    → w.faults ≡ []
    → name ≢ ""
    → find (has_name name) w.db.rooms ≡ some r
    → DistinctKeys transcript_id w.db.transcripts
    → DistinctKeys summary_id w.db.summaries
    → (resp : InsightsResponse) × (handle_get_by_room_name name w ≡ (ok (shown resp), w))
      × (resp.room_livekit_name ≡ name)
      × (resp.transcript ≡ latest_transcript name w.db)
      × (resp.summary ≡ latest_summary name w.db)
      × (resp.step ≡ progress name r.status w.db)
      × (resp.status ≡ status_at resp.step)
unfolding handle_get_by_room_name on_result pure ◌>>=◌
insights_shows name w r f n found ts ss =
    let same : r.livekit_room_name ≡ name =
      (eq_iff _ _).0 (find_test (has_name name) w.db.rooms r found) in
    let (no_transcript, no_summary, of_step, named) = step_of_lem name (state_of w.db r) in
    let t = latest_transcript name w.db in
    let s = latest_summary name w.db in
    let (shown_t, shown_s, step, status, room) =
      with_both w f t s (step_of name (state_of w.db r)) no_transcript no_summary in
    let blank : (name == "") ≡ false = ground (arith, n, eq_iff name "") in
    (
      with_own_summary s (with_own_transcript t (step_of name (state_of w.db r))),
      rw (blank, query_row_run (find_state name) w f, found)
          (respond_with_run w f name (state_of w.db r) t s (rw same refl) (rw same refl)
            (own_transcript w f name ts) (own_summary w f name ss)),
      room ∙ named,
      shown_t,
      shown_s,
      step ∙ step_of-progress name r w.db same,
      status ∙ of_step ∙ ap status_at (sym step),
    )
