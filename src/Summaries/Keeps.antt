-- ===== src/Summaries/Keeps.antt =====
-- What the handler of `summarize` jobs keeps of the tables (internals/summaries/service.go).
use gotel_reserves.Base.{ℕ, String, refl, string_eq, Option, none, some, arith}
use gotel_reserves.Backend.Rows.{Db, Job, SummarizePayload, TranscriptRow}
use gotel_reserves.Backend.Exec.{Result, ok, err}
use gotel_reserves.Backend.Preserves.{Preserves, Preserves-bind, preserves_rules}
use gotel_reserves.Rooms.Methods.{IgnoresRest}
use gotel_reserves.Summaries.Grok.{SummaryOutput, SystemPrompt, UserMessage, ChatAnswer}
use gotel_reserves.Summaries.Service.{
  fetch_transcript, upsert_summary, persist_summary, lift, summarize_transcript, handle_transcript,
  handle_payload, decode, handle,
}

module _ {I : Db → Type 0} (about : IgnoresRest I) (model : String)
    (http : SystemPrompt → UserMessage → Option ChatAnswer) where
  upsert_summary_keeps :
      (tr : TranscriptRow) (p : SummarizePayload) (out : SummaryOutput) (t : ℕ) (d : Db)
      → I d
      → I (upsert_summary tr p out model t d).1
  unfolding upsert_summary
  upsert_summary_keeps tr p out t d h = about d _ refl refl (omega arith) h

  persist_summary-Preserves :
      (tr : TranscriptRow) (p : SummarizePayload) (out : SummaryOutput)
      → Preserves I (persist_summary model tr p out)
  unfolding persist_summary
  persist_summary-Preserves tr p out = search (preserves_rules, upsert_summary_keeps) depth 8

  fetch_transcript-Preserves : (id : ℕ) → Preserves I (fetch_transcript id)
  unfolding fetch_transcript
  fetch_transcript-Preserves id = search preserves_rules

  lift-Preserves : (r : Result SummaryOutput) → Preserves I (lift model http r)
  lift-Preserves (ok p) = search preserves_rules
  lift-Preserves (err e) = search preserves_rules

  summarize_transcript-Preserves :
      (p : SummarizePayload) (tr : TranscriptRow)
      → Preserves I (summarize_transcript model http p tr)
  summarize_transcript-Preserves p tr =
      search (preserves_rules, lift-Preserves, persist_summary-Preserves) depth 8

  handle_transcript-Preserves :
      (p : SummarizePayload) (o : Option ℕ) → Preserves I (handle_transcript model http p o)
  handle_transcript-Preserves p none = search preserves_rules
  handle_transcript-Preserves p (some id) =
      Preserves-bind _ _ (fetch_transcript-Preserves id) (λ tr. summarize_transcript-Preserves p tr)

  handle_payload-Preserves :
      (o : Option SummarizePayload) → Preserves I (handle_payload model http o)
  handle_payload-Preserves none = search preserves_rules
  handle_payload-Preserves (some p) = handle_transcript-Preserves p p.transcript_id

  pub handle-Preserves : (job : Job) → Preserves I (handle model http job)
  unfolding handle
  handle-Preserves job = handle_payload-Preserves (decode job.payload)
