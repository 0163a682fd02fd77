-- ===== src/Transcripts/Deepgram.antt =====
-- internals/transcripts/deepgram.go: how an answer of the transcription service is read. The HTTP
-- exchange itself is the argument `http`; confidences and word timings are left out.
use gotel_reserves.Base.{ℕ, String, Option, none, some, List, [], ◌∷◌, ◌==◌, nat_eq, if◌then◌else◌}
use gotel_reserves.Backend.Exec.{Result, ok, err, transcription_failed, rate_limited}
use gotel_reserves.Transcripts.Spaces.{PresignedUrl}

pub record DeepgramAlternative : Type 0 where
  pub transcript : String
  pub words : List String

pub record DeepgramChannel : Type 0 where
  pub alternatives : List DeepgramAlternative

-- `duration` is the whole seconds of the float.
pub record DeepgramResponse : Type 0 where
  pub duration : ℕ
  pub model_name : String
  pub channels : List DeepgramChannel

pub record DeepgramConfig : Type 0 where
  pub model : String
  pub language : String

pub record ParsedTranscript : Type 0 where
  pub text : String
  pub words : List String
  pub duration_sec : ℕ
  pub model : String
  pub language : String

abbrev empty_transcript : DeepgramConfig → ParsedTranscript
empty_transcript cfg = record {
  text = "";
  words = [];
  duration_sec = 0;
  model = cfg.model;
  language = cfg.language;
}

abbrev parse_alternatives :
    DeepgramConfig → DeepgramResponse → List DeepgramAlternative → ParsedTranscript
parse_alternatives cfg dg [] = empty_transcript cfg
parse_alternatives cfg dg (alt ∷ _) = record {
  text = alt.transcript;
  words = alt.words;
  duration_sec = dg.duration;
  model = dg.model_name;
  language = cfg.language;
}

abbrev parse_channels : DeepgramConfig → DeepgramResponse → List DeepgramChannel → ParsedTranscript
parse_channels cfg dg [] = empty_transcript cfg
parse_channels cfg dg (channel ∷ _) = parse_alternatives cfg dg channel.alternatives

unfoldable pub parse : DeepgramConfig → DeepgramResponse → ParsedTranscript
parse cfg dg = parse_channels cfg dg dg.channels

-- An HTTP answer: its status, and its body where that decodes.
pub record HttpAnswer : Type 0 where
  pub status_code : ℕ
  pub body : Option DeepgramResponse

abbrev decoded : DeepgramConfig → Option DeepgramResponse → Result ParsedTranscript
decoded cfg none = err transcription_failed
decoded cfg (some dg) = ok (parse cfg dg)

abbrev read_answer : DeepgramConfig → Option HttpAnswer → Result ParsedTranscript
read_answer cfg none = err transcription_failed
read_answer cfg (some a) =
    if a.status_code == 429
    then err rate_limited
    else if a.status_code == 200
    then decoded cfg a.body
    else err transcription_failed

-- `http` is `none` where the request itself fails.
unfoldable pub transcribe :
    DeepgramConfig → (PresignedUrl → Option HttpAnswer) → PresignedUrl → Result ParsedTranscript
transcribe cfg http url = read_answer cfg (http url)
