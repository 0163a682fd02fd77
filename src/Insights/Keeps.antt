-- ===== src/Insights/Keeps.antt =====
-- The read-only handlers of internals/transcripts/handler.go, internals/summaries/handler.go and
-- internals/insights/handler.go leave the tables alone.
use gotel_reserves.Base.{ℕ, String, ◌==◌, string_eq, Option, none, some}
use gotel_reserves.Backend.Rows.{Db, TranscriptRow, SummaryRow}
use gotel_reserves.Backend.Exec.{Result, ok, err, not_found}
use gotel_reserves.Backend.Preserves.{
  Preserves, Preserves-if, Preserves-on_result, Preserves-bind, Preserves-pure, preserves_rules,
}
use gotel_reserves.Insights.Reading.{
  latest_transcript, latest_summary, summary_by_transcript_id, query_row, show_row, by_number,
  by_room, handle_get_transcript_by_room_name, handle_get_transcript_by_id,
  handle_get_summary_by_room_name, handle_get_summary_by_transcript_id, handle_get_summary_by_id,
  transcript_by_id, summary_by_id,
}
use gotel_reserves.Insights.Pipeline.{
  State, InsightsResponse, with_transcript, attach_transcript, with_summary, attach_summary,
  respond_with, find_state, step_of, handle_get_by_room_name,
}

module _ {I : Db → Type 0} where
  query_row-Preserves : {A : Type 0} (f : Db → Option A) → Preserves I (query_row f)
  query_row-Preserves f = search preserves_rules

  show_row-Preserves : {A : Type 0} (r : Result A) → Preserves I (show_row r)
  show_row-Preserves (ok a) = Preserves-pure _
  show_row-Preserves (err not_found) = Preserves-pure _
  show_row-Preserves (err _) = Preserves-pure _

  by_number-Preserves :
      {A : Type 0} (f : ℕ → Db → Option A) (id : Option ℕ) → Preserves I (by_number f id)
  by_number-Preserves f none = Preserves-pure _
  by_number-Preserves f (some id) =
      Preserves-on_result _ _ (query_row-Preserves (f id)) show_row-Preserves

  by_room-Preserves :
      {A : Type 0} (f : String → Db → Option A) (name : String) → Preserves I (by_room f name)
  by_room-Preserves f name =
      Preserves-if (name == "") _ _ (λ _. Preserves-pure _)
        (λ _. Preserves-on_result _ _ (query_row-Preserves (f name)) show_row-Preserves)

  pub transcript_by_room-Preserves :
      (name : String) → Preserves I (handle_get_transcript_by_room_name name)
  unfolding handle_get_transcript_by_room_name
  transcript_by_room-Preserves name = by_room-Preserves latest_transcript name

  pub transcript_by_id-Preserves : (id : Option ℕ) → Preserves I (handle_get_transcript_by_id id)
  unfolding handle_get_transcript_by_id
  transcript_by_id-Preserves id = by_number-Preserves transcript_by_id id

  pub summary_by_room-Preserves :
      (name : String) → Preserves I (handle_get_summary_by_room_name name)
  unfolding handle_get_summary_by_room_name
  summary_by_room-Preserves name = by_room-Preserves latest_summary name

  pub summary_by_transcript-Preserves :
      (id : Option ℕ) → Preserves I (handle_get_summary_by_transcript_id id)
  unfolding handle_get_summary_by_transcript_id
  summary_by_transcript-Preserves id = by_number-Preserves summary_by_transcript_id id

  pub summary_by_id-Preserves : (id : Option ℕ) → Preserves I (handle_get_summary_by_id id)
  unfolding handle_get_summary_by_id
  summary_by_id-Preserves id = by_number-Preserves summary_by_id id

  with_transcript-Preserves :
      (resp : InsightsResponse) (r : Result TranscriptRow) → Preserves I (with_transcript resp r)
  with_transcript-Preserves resp (ok t) = Preserves-pure _
  with_transcript-Preserves resp (err e) = Preserves-pure _

  attach_transcript-Preserves :
      (id : Option ℕ) (resp : InsightsResponse) → Preserves I (attach_transcript id resp)
  attach_transcript-Preserves none resp = Preserves-pure _
  attach_transcript-Preserves (some id) resp =
      Preserves-on_result _ _ (query_row-Preserves (transcript_by_id id))
        (with_transcript-Preserves resp)

  with_summary-Preserves :
      (resp : InsightsResponse) (r : Result SummaryRow) → Preserves I (with_summary resp r)
  with_summary-Preserves resp (ok s) = Preserves-pure _
  with_summary-Preserves resp (err e) = Preserves-pure _

  attach_summary-Preserves :
      (id : Option ℕ) (resp : InsightsResponse) → Preserves I (attach_summary id resp)
  attach_summary-Preserves none resp = Preserves-pure _
  attach_summary-Preserves (some id) resp =
      Preserves-on_result _ _ (query_row-Preserves (summary_by_id id)) (with_summary-Preserves resp)

  respond_with-Preserves : (name : String) (r : Result State) → Preserves I (respond_with name r)
  respond_with-Preserves name (err not_found) = Preserves-pure _
  respond_with-Preserves name (err _) = Preserves-pure _
  respond_with-Preserves name (ok s) =
      Preserves-bind _ _ (attach_transcript-Preserves s.transcript_id (step_of name s)) (λ resp.
        Preserves-bind _ _ (attach_summary-Preserves s.summary_id resp) (λ resp'. Preserves-pure _))

  pub insights-Preserves : (name : String) → Preserves I (handle_get_by_room_name name)
  unfolding handle_get_by_room_name
  insights-Preserves name =
      Preserves-if (name == "") _ _ (λ _. Preserves-pure _)
        (λ _.
          Preserves-on_result _ _ (query_row-Preserves (find_state name))
            (respond_with-Preserves name))
