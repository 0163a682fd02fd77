-- ===== src/Insights/Reading.antt =====
-- internals/transcripts/handler.go and internals/summaries/handler.go. Words, confidence, model and
-- language of a transcript are left out, as in the tables.
use gotel_reserves.Base.{
  ℕ, String, Option, none, some, List, ◌==◌, nat_eq, string_eq, if◌then◌else◌, find, select, latest,
}
use gotel_reserves.Backend.Rows.{TranscriptRow, SummaryRow, Db}
use gotel_reserves.Backend.Exec.{
  M, Result, ok, err, pure, or_raise, statement, on_result, not_found, ◌>>=◌,
}

-- A row, or the status of the refusal.
pub data Shown (A : Type 0) : Type 0 where
  shown : A → Shown A
  refused_with : ℕ → Shown A

module _ {A : Type 0} where
  -- one row of a query, sql.ErrNoRows if there is none
  abbrev pub query_row : (Db → Option A) → M A
  query_row f = do row ← statement (λ d. (ok (f d), d)); or_raise row not_found

  abbrev pub show_row : Result A → M (Shown A)
  show_row (ok a) = pure (shown a)
  show_row (err not_found) = pure (refused_with 404)
  show_row (err _) = pure (refused_with 500)

  abbrev pub by_number : (ℕ → Db → Option A) → Option ℕ → M (Shown A)
  by_number f none = pure (refused_with 400)
  by_number f (some id) = on_result (query_row (f id)) show_row

  abbrev pub by_room : (String → Db → Option A) → String → M (Shown A)
  by_room f name =
      if name == "" then pure (refused_with 400) else on_result (query_row (f name)) show_row

abbrev pub transcripts_of : String → Db → List TranscriptRow
transcripts_of name d = select (λ (t : TranscriptRow). t.room_livekit_name == name) d.transcripts

abbrev pub summaries_of : String → Db → List SummaryRow
summaries_of name d = select (λ (s : SummaryRow). s.room_livekit_name == name) d.summaries

abbrev pub latest_transcript : String → Db → Option TranscriptRow
latest_transcript name d = latest (λ (t : TranscriptRow). t.created_at) (transcripts_of name d)

abbrev pub latest_summary : String → Db → Option SummaryRow
latest_summary name d = latest (λ (s : SummaryRow). s.created_at) (summaries_of name d)

abbrev pub transcript_by_id : ℕ → Db → Option TranscriptRow
transcript_by_id id d = find (λ (t : TranscriptRow). t.id == id) d.transcripts

abbrev pub summary_by_id : ℕ → Db → Option SummaryRow
summary_by_id id d = find (λ (s : SummaryRow). s.id == id) d.summaries

abbrev pub summary_by_transcript_id : ℕ → Db → Option SummaryRow
summary_by_transcript_id id d = find (λ (s : SummaryRow). s.transcript_id == id) d.summaries

unfoldable pub handle_get_transcript_by_room_name : String → M (Shown TranscriptRow)
handle_get_transcript_by_room_name name = by_room latest_transcript name

-- The number in the path, if it is one.
unfoldable pub handle_get_transcript_by_id : Option ℕ → M (Shown TranscriptRow)
handle_get_transcript_by_id id = by_number transcript_by_id id

unfoldable pub handle_get_summary_by_room_name : String → M (Shown SummaryRow)
handle_get_summary_by_room_name name = by_room latest_summary name

unfoldable pub handle_get_summary_by_transcript_id : Option ℕ → M (Shown SummaryRow)
handle_get_summary_by_transcript_id id = by_number summary_by_transcript_id id

unfoldable pub handle_get_summary_by_id : Option ℕ → M (Shown SummaryRow)
handle_get_summary_by_id id = by_number summary_by_id id
