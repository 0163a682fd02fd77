-- ===== src/Webhooks/Recordings.antt =====
-- How a recording comes to be transcribed: the egress_ended event of internals/webhooks/handler.go.
use gotel_reserves.Base.{Bool, true, false, ◌&&◌, ◌==◌, string_eq, ℕ, some, List, update_where}
use gotel_reserves.Backend.Rows.{RecordingRow, RecordingStatus}
use gotel_reserves.Backend.Exec.{◌>>◌}
use gotel_reserves.Webhooks.Events.{EgressInfo}
use gotel_reserves.Webhooks.Handler.{extract_egress_file_info}

abbrev is_recording : RecordingStatus → Bool
is_recording RecordingStatus.recording = true
is_recording _ = false

-- the recordings after the egress of this description completed at `t`
abbrev pub completed_at : EgressInfo → ℕ → List RecordingRow → List RecordingRow
completed_at ei t rows =
    let (url, size, duration) = extract_egress_file_info ei in
    update_where (λ (r : RecordingRow). r.egress_id == ei.egress_id && is_recording r.status)
      (λ (r : RecordingRow). record r {
        status = RecordingStatus.completed;
        file_url = some url;
        file_size_bytes = some size;
        duration_sec = some duration;
        completed_at = some t;
      })
      rows
