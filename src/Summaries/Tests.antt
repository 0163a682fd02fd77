-- ===== src/Summaries/Tests.antt =====
-- Runs of internals/summaries on small texts and states.
use gotel_reserves.Base.{
  ℕ, ◌≡◌, refl, some, none, Option, List, [], ◌∷◌, arith, codes, length, All, ◌≤◌,
}
use gotel_reserves.Backend.Rows.{SummarizePayload}
use gotel_reserves.Backend.Exec.{World}
use gotel_reserves.Summaries.Chunks.{step, chunks_from, split_into_chunks}
use gotel_reserves.Summaries.Stitching.{stitch, stitch-split_into_chunks}
use gotel_reserves.Summaries.Grok.{SummaryOutput, SystemPrompt, UserMessage, ChatAnswer}
use gotel_reserves.Summaries.Service.{handle}
use gotel_reserves.Samples.{world, recorded, summarize_job}

abbrev runes : List ℕ
runes = codes "abcdefgh"

three_chunks : split_into_chunks runes 4 1 ≡ codes "abcd" ∷ codes "defg" ∷ codes "gh" ∷ []
unfolding split_into_chunks chunks_from
three_chunks = refl

stitch-split_into_chunks_example :
    All (λ c. length c ≤ 4) (split_into_chunks runes 4 1)
    × (stitch (step 4 1) (split_into_chunks runes 4 1) ≡ runes)
stitch-split_into_chunks_example = stitch-split_into_chunks runes 4 1 (omega arith)

abbrev output : SummaryOutput
output = record {
  executive_summary = "They met.";
  key_points = "point" ∷ [];
  action_items = [];
  decisions_made = [];
  discussion_tags = [];
}

abbrev http : SystemPrompt → UserMessage → Option ChatAnswer
http system user = some (record {
  status_code = 200;
  choices = some (record { content = some output; finish_reason = "stop" } ∷ []);
})

abbrev payload : SummarizePayload
payload = record { room_livekit_name = "guest-0a"; transcript_id = some 4; category = "webinar" }

abbrev after : World
after = (handle "grok" http summarize_job (world recorded [])).1

abbrev busy : SystemPrompt → UserMessage → Option ChatAnswer
busy system user = some (record { status_code = 429; choices = none })
