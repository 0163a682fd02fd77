-- ===== src/Summaries/Service.antt =====
-- internals/summaries/service.go: the handler of `summarize` jobs.
use gotel_reserves.Base.{
  ℕ, ◌+◌, String, Bool, Option, none, some, ◌==◌, nat_eq, string_eq, if◌then◌else◌, find,
  upsert_where, codes,
}
use gotel_reserves.Backend.Rows.{TranscriptRow, SummarizePayload, SummaryRow, Payload, Job, Db}
use gotel_reserves.Backend.Exec.{
  Result, ok, err, M, pure, raise, statement, transaction, now, not_found, ◌>>=◌,
}
use gotel_reserves.Summaries.Grok.{
  SummaryOutput, SystemPrompt, UserMessage, ChatAnswer, system_prompt_for, summarize,
}

-- json.Unmarshal into a SummarizePayload: a field that the text lacks stays empty.
abbrev pub decode : Payload → Option SummarizePayload
decode (Payload.summarization p) = some p
decode (Payload.transcription p) =
    some (record { room_livekit_name = p.room_livekit_name; transcript_id = none; category = "" })
decode Payload.malformed = none

abbrev pub has_transcript_id : ℕ → TranscriptRow → Bool
has_transcript_id id t = t.id == id

abbrev found_or : Option TranscriptRow → Result TranscriptRow
found_or none = err not_found
found_or (some t) = ok t

unfoldable pub fetch_transcript : ℕ → M TranscriptRow
fetch_transcript id = statement (λ d. (found_or (find (has_transcript_id id) d.transcripts), d))

abbrev pub summarizes : ℕ → SummaryRow → Bool
summarizes id s = s.transcript_id == id

abbrev pub new_summary :
    ℕ → TranscriptRow → SummarizePayload → SummaryOutput → String → ℕ → SummaryRow
new_summary id tr payload out model t = record {
  id = id;
  transcript_id = tr.id;
  room_livekit_name = tr.room_livekit_name;
  category = payload.category;
  executive_summary = out.executive_summary;
  key_points = out.key_points;
  action_items = out.action_items;
  decisions_made = out.decisions_made;
  discussion_tags = out.discussion_tags;
  model = model;
  created_at = t;
}

abbrev pub rewrite_summary : SummaryOutput → String → SummaryRow → SummaryRow
rewrite_summary out model s = record s {
  executive_summary = out.executive_summary;
  key_points = out.key_points;
  action_items = out.action_items;
  decisions_made = out.decisions_made;
  discussion_tags = out.discussion_tags;
  model = model;
}

-- INSERT INTO summaries ... ON CONFLICT (transcript_id) DO UPDATE
unfoldable pub upsert_summary :
    TranscriptRow → SummarizePayload → SummaryOutput → String → ℕ → Db → Result (Unit {0}) × Db
upsert_summary tr payload out model t d = (
  ok tt,
  record d {
    summaries =
        upsert_where (summarizes tr.id) (rewrite_summary out model)
          (new_summary d.next_id tr payload out model t) d.summaries;
    next_id = d.next_id + 1;
  },
)

unfoldable pub persist_summary :
    String → TranscriptRow → SummarizePayload → SummaryOutput → M (Unit {0})
persist_summary model tr payload out =
    transaction (do t ← now; statement (upsert_summary tr payload out model t))

module _ (model : String) (http : SystemPrompt → UserMessage → Option ChatAnswer) where
  abbrev pub lift : Result SummaryOutput → M SummaryOutput
  lift (ok out) = pure out
  lift (err e) = raise e

  -- A transcript with no text is skipped.
  abbrev pub summarize_transcript : SummarizePayload → TranscriptRow → M (Unit {0})
  summarize_transcript payload tr = if tr.text == "" then pure tt else do
    out ← lift (summarize http (system_prompt_for payload.category) (codes tr.text))
    persist_summary model tr payload out

  abbrev pub handle_transcript : SummarizePayload → Option ℕ → M (Unit {0})
  handle_transcript payload none = pure tt
  handle_transcript payload (some id) = do tr ← fetch_transcript id; summarize_transcript payload tr

  abbrev pub handle_payload : Option SummarizePayload → M (Unit {0})
  handle_payload none = pure tt
  handle_payload (some payload) = handle_transcript payload payload.transcript_id

  -- A payload that does not decode, or has no number, counts as done.
  unfoldable pub handle : Job → M (Unit {0})
  handle job = handle_payload (decode job.payload)
