-- ===== src/Summaries/Storing.antt =====
-- What a `summarize` job leaves in the tables (internals/summaries/service.go).
use gotel_reserves.Base.{
  String, ◌≡◌, inl, inr, refl, Option, none, some, ◌==◌, string_eq, arith, codes, find, Bool-cases,
  Option-cases,
}
use gotel_reserves.Backend.Rows.{TranscriptRow, SummaryRow, SummarizePayload, Job}
use gotel_reserves.Backend.Exec.{
  Error, Result, ok, err, World, M, pure, request, statement, next_fault, ◌>>=◌,
}
use gotel_reserves.Backend.Transactions.{transaction_err}
use gotel_reserves.Summaries.Grok.{
  SummaryOutput, SystemPrompt, UserMessage, ChatAnswer, system_prompt_for, summarize,
}
use gotel_reserves.Summaries.Service.{
  decode, has_transcript_id, fetch_transcript, persist_summary, lift, summarize_transcript,
  handle_payload, handle,
}

-- The row holds this summary.
pub record Holds (out : SummaryOutput) (model : String) (s : SummaryRow) : Type 0 where
  pub executive_summary : s.executive_summary ≡ out.executive_summary
  pub key_points : s.key_points ≡ out.key_points
  pub action_items : s.action_items ≡ out.action_items
  pub decisions_made : s.decisions_made ≡ out.decisions_made
  pub discussion_tags : s.discussion_tags ≡ out.discussion_tags
  pub written_by : s.model ≡ model

module _ (model : String) (http : SystemPrompt → UserMessage → Option ChatAnswer) where
  lift_err :
      (r : Result SummaryOutput) (f : SummaryOutput → M (Unit {0})) (w : World) (e : Error)
      → ((out : SummaryOutput) → (f out w).0 ≡ err e → (f out w).1.db ≡ w.db)
      → ((lift model http r >>= f) w).0 ≡ err e
      → ((lift model http r >>= f) w).1.db ≡ w.db
  unfolding ◌>>=◌
  lift_err (ok out) f w e k h = k out h
  lift_err (err x) f w e k h = ground arith

  summarize_transcript_err :
      (payload : SummarizePayload) (tr : TranscriptRow) (w : World) (e : Error)
      → (summarize_transcript model http payload tr w).0 ≡ err e
      → (summarize_transcript model http payload tr w).1.db ≡ w.db
  unfolding persist_summary pure
  summarize_transcript_err payload tr w e h = elim (Bool-cases (tr.text == "")) [
    | inl b ↦ rw b refl
    | inr b ↦ rw b (
        lift_err (summarize http (system_prompt_for payload.category) (codes tr.text)) _ w e
          (λ out k. transaction_err _ w k) (rw b at h))
  ]

  handle_payload_err :
      (o : Option SummarizePayload) (w : World) (e : Error)
      → (handle_payload model http o w).0 ≡ err e
      → (handle_payload model http o w).1.db ≡ w.db
  unfolding pure fetch_transcript statement request ◌>>=◌
  handle_payload_err none w e h = refl
  handle_payload_err (some payload) w e h = elim (Option-cases payload.transcript_id) [
    | inl i ↦ rw i refl
    | inr (id, i) ↦ rw i (elim (Option-cases (find (has_transcript_id id) w.db.transcripts)) [
      | inl f ↦ ground arith
      | inr (row, f) ↦ ground (
        arith,
        summarize_transcript_err payload row (record w { faults = (next_fault w.faults).1 }) e,
      )
    ])
  ]

  -- A `summarize` job that fails leaves the tables as they were, so that it can be tried again.
  pub handle_restores :
      (job : Job) (w : World) (e : Error)
      → (handle model http job w).0 ≡ err e
      → (handle model http job w).1.db ≡ w.db
  unfolding handle
  handle_restores job w e h = handle_payload_err (decode job.payload) w e h
