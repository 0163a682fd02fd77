-- ===== src/Insights/Tests.antt =====
-- The insights of a room of the samples, whose recording is transcribed.
use gotel_reserves.Base.{◌≡◌, ◌≢◌, refl, some, [], ◌∷◌, string_eq, eq_iff}
use gotel_reserves.Backend.Rows.{Db, TranscriptRow, live}
use gotel_reserves.Backend.Exec.{ok, on_result, pure, or_raise, statement, request, ◌>>=◌}
use gotel_reserves.Insights.Reading.{
  shown, latest_transcript, latest_summary, handle_get_transcript_by_id,
}
use gotel_reserves.Insights.Pipeline.{Step, InsightsResponse, handle_get_by_room_name}
use gotel_reserves.Insights.Progress.{progress, status_at, insights_shows}
use gotel_reserves.Samples.{world, two_rooms, live_room, transcript_row}

abbrev earlier : TranscriptRow
earlier = record transcript_row { id = 90; created_at = 0; text = "first try" }

abbrev two_transcripts : Db
two_transcripts = record two_rooms { transcripts = transcript_row ∷ earlier ∷ [] }

named : live_room.livekit_room_name ≢ ""
named e = cc ((eq_iff "guest-0a" "").1 e)

insights_shows_example :
    let w = world two_transcripts [] in
    (resp : InsightsResponse) × (handle_get_by_room_name "guest-0a" w ≡ (ok (shown resp), w))
    × (resp.room_livekit_name ≡ "guest-0a")
    × (resp.transcript ≡ latest_transcript "guest-0a" w.db)
    × (resp.summary ≡ latest_summary "guest-0a" w.db)
    × (resp.step ≡ progress "guest-0a" live w.db)
    × (resp.status ≡ status_at resp.step)
insights_shows_example =
    insights_shows "guest-0a" (world two_transcripts []) live_room refl named refl
      (refl, (refl, tt)) tt

summarizing : progress "guest-0a" live two_transcripts ≡ Step.summarizing
summarizing = refl

earlier_by_id :
    (handle_get_transcript_by_id (some 90) (world two_transcripts [])).0 ≡ ok (shown earlier)
unfolding handle_get_transcript_by_id on_result pure or_raise statement request ◌>>=◌
earlier_by_id = refl
