-- ===== src/Summaries/Grok.antt =====
-- internals/summaries/openai.go and prompts.go: the client of the language model. The HTTP exchange
-- is the argument `http`; a message is modelled by what it is composed of, a text by its runes.
use gotel_reserves.Base.{
  ℕ, suc, String, Option, none, some, List, [], ◌∷◌, ◌==◌, nat_eq, string_eq, if◌then◌else◌, leb,
  length,
}
use gotel_reserves.Backend.Rows.{ActionItem}
use gotel_reserves.Backend.Exec.{Result, ok, err, rate_limited, summary_failed}
use gotel_reserves.Summaries.Chunks.{split_into_chunks, max_chunk_runes, chunk_overlap}

pub record SummaryOutput : Type 0 where
  pub executive_summary : String
  pub key_points : List String
  pub action_items : List ActionItem
  pub decisions_made : List String
  pub discussion_tags : List String

-- the system prompts: the three of prompts.go and that of `reduce`
pub data SystemPrompt : Type 0 where
  webinar_creator business_sync educator merge_step : SystemPrompt

pub data UserMessage : Type 0 where
  -- "Meeting transcript:\n\n" and the text
  transcript : List ℕ → UserMessage
  -- the same, with "[Chunk i/n]\n" before the text
  chunk : ℕ → ℕ → List ℕ → UserMessage
  -- "Partial summaries to merge:\n" and the JSON of the summaries
  partials : List SummaryOutput → UserMessage

unfoldable pub system_prompt_for : String → SystemPrompt
system_prompt_for cat =
    if cat == "webinar"
    then webinar_creator
    else if cat == "creator"
    then webinar_creator
    else if cat == "educator"
    then educator
    else if cat == "online_class"
    then educator
    else business_sync

-- A choice of the envelope; `content` is what json.Unmarshal makes of its text.
pub record Choice : Type 0 where
  pub content : Option SummaryOutput
  pub finish_reason : String

-- An HTTP answer: its status, and the choices of its body where that decodes.
pub record ChatAnswer : Type 0 where
  pub status_code : ℕ
  pub choices : Option (List Choice)

abbrev read_content : Option SummaryOutput → Result SummaryOutput
read_content none = err summary_failed
read_content (some out) = ok out

abbrev read_choices : Option (List Choice) → Result SummaryOutput
read_choices none = err summary_failed
read_choices (some []) = err summary_failed
read_choices (some (choice ∷ _)) =
    if choice.finish_reason == "length" then err summary_failed else read_content choice.content

abbrev pub read_chat : Option ChatAnswer → Result SummaryOutput
read_chat none = err summary_failed
read_chat (some a) =
    if a.status_code == 429
    then err rate_limited
    else if a.status_code == 200
    then read_choices a.choices
    else err summary_failed

abbrev prepend : SummaryOutput → Result (List SummaryOutput) → Result (List SummaryOutput)
prepend out (err e) = err e
prepend out (ok outs) = ok (out ∷ outs)

-- `http` is `none` where the request itself fails.
module _ (http : SystemPrompt → UserMessage → Option ChatAnswer) where
  unfoldable pub chat : SystemPrompt → UserMessage → Result SummaryOutput
  chat system user = read_chat (http system user)

  unfoldable pub reduce : List SummaryOutput → Result SummaryOutput
  reduce outs = chat merge_step (partials outs)

  abbrev pub then_partials :
      Result SummaryOutput → Result (List SummaryOutput) → Result (List SummaryOutput)
  then_partials (err e) rest = err e
  then_partials (ok out) rest = prepend out rest

  -- The loop of `mapReduce`: chunk `i` of `n` and those after it. The first error ends it.
  unfoldable pub summarize_chunks :
      SystemPrompt → ℕ → ℕ → List (List ℕ) → Result (List SummaryOutput)
  summarize_chunks system i n [] = ok []
  summarize_chunks system i n (c ∷ cs) =
      then_partials (chat system (chunk i n c)) (summarize_chunks system (suc i) n cs)

  abbrev pub reduce_all : Result (List SummaryOutput) → Result SummaryOutput
  reduce_all (err e) = err e
  reduce_all (ok outs) = reduce outs

  unfoldable pub map_reduce : SystemPrompt → List ℕ → Result SummaryOutput
  map_reduce system runes =
      let chunks = split_into_chunks runes max_chunk_runes chunk_overlap in
      reduce_all (summarize_chunks system 1 (length chunks) chunks)

  unfoldable pub summarize : SystemPrompt → List ℕ → Result SummaryOutput
  summarize system runes =
      if leb (length runes) max_chunk_runes
      then chat system (transcript runes)
      else map_reduce system runes
