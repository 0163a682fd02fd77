-- ===== src/Transcripts/Tests.antt =====
-- Runs of internals/transcripts on small states.
use Prim.Native.String
use gotel_reserves.Base.{◌*◌, ◌+◌, ◌/◌, ◌==◌, nat_eq, if◌then◌else◌, min, max, arith}
use gotel_reserves.Backend.Rows.{second, minute}
use gotel_reserves.Transcripts.Spaces.{presign_ttl, extract_spaces_key}
use gotel_reserves.Transcripts.Urls.{SlashFree, presign_get_expiry, extract_spaces_key-inverse}
use gotel_reserves.Base.{◌≡◌, refl, some, none, Option, [], ◌∷◌}
use gotel_reserves.Backend.Rows.{Job, Payload, TranscribePayload, transcribe}
use gotel_reserves.Backend.Exec.{
  World, rate_limited, statement, request, raise, raise_if, pure, now, ◌>>=◌,
}
use gotel_reserves.Transcripts.Spaces.{
  with_scheme, trim_slashes, object_url, SpacesConfig, PresignedUrl, presign_get,
}
use gotel_reserves.Transcripts.Deepgram
use gotel_reserves.Transcripts.Deepgram.{DeepgramConfig, HttpAnswer}
use gotel_reserves.Transcripts.Service.{fetch_recording, handle_payload, handle}
use gotel_reserves.Transcripts.Storing.{handle_undoes}
use gotel_reserves.Samples.{world, recorded, summarize_job}

abbrev spaces : SpacesConfig
spaces = record { endpoint = "nyc3.example.com"; bucket = "bucket" }

abbrev deepgram : DeepgramConfig
deepgram = record { model = "nova-2"; language = "en" }

abbrev http : PresignedUrl → Option HttpAnswer
http url = some (record {
  status_code = 200;
  body = some (record {
    duration = 12;
    model_name = "nova-2";
    channels = record { alternatives = record { transcript = "hi all"; words = [] } ∷ [] } ∷ [];
  });
})

abbrev payload : TranscribePayload
payload = record { room_livekit_name = "guest-0a"; egress_id = "EG_1"; file_url = "" }

abbrev after : World
after = (handle_payload spaces deepgram http payload (world recorded [])).1

abbrev busy : PresignedUrl → Option HttpAnswer
busy url = some (record { status_code = 429; body = none })

abbrev job : Job
job = record summarize_job { type = transcribe; payload = Payload.transcription payload }

handle_undoes_example : (handle spaces deepgram busy job (world recorded [])).1.db ≡ recorded
unfolding handle handle_payload fetch_recording presign_get Deepgram.transcribe raise raise_if pure
    statement request now ◌>>=◌
handle_undoes_example = handle_undoes spaces deepgram busy job (world recorded []) rate_limited refl

abbrev signed : World
signed = (presign_get spaces "rec/a.mp4" (20 * 60 * second) (world recorded [])).1

abbrev url : PresignedUrl
url = record { object_url = "https://nyc3.example.com/bucket/rec/a.mp4"; expires = 6001 }

presign_get_expiry_example :
    url.expires
    ≡ (signed.clock
        + (if 20 * 60 * second == 0
            then 60 * minute
            else max (15 * minute) (min (4 * 60 * minute) (20 * 60 * second * 2))))
      / second
unfolding presign_get presign_ttl with_scheme trim_slashes raise_if pure now ◌>>=◌
presign_get_expiry_example =
    presign_get_expiry spaces "rec/a.mp4" (20 * 60 * second) (world recorded []) signed url refl

host_SlashFree : SlashFree "b.example.com"
host_SlashFree = (
  ground arith,
  (
    ground arith,
    (
      ground arith,
      (
        ground arith,
        (
          ground arith,
          (
            ground arith,
            (
              ground arith,
              (
                ground arith,
                (ground arith, (ground arith, (ground arith, (ground arith, (ground arith, tt))))),
              ),
            ),
          ),
        ),
      ),
    ),
  ),
)

extract_spaces_key-inverse_example :
    extract_spaces_key
      (String.◌++◌ "https://" (String.◌++◌ "b.example.com" (String.◌++◌ "/" "rec/a.mp4")))
    ≡ "rec/a.mp4"
extract_spaces_key-inverse_example =
    extract_spaces_key-inverse "b.example.com" "rec/a.mp4" host_SlashFree
