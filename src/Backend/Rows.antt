-- ===== src/Backend/Rows.antt =====
-- db/sql.db.go: the tables, a record for a row of each and a list for its rows, and the Go types
-- that are stored in them (internals/rooms/domain.go, internals/jobs/models.go). Texts with a CHECK
-- constraint are data types. A moment is a number of nanoseconds, as in Go's `time.Duration`.
use gotel_reserves.Base.{ℕ, ◌*◌, String, Bool, Option, List}

abbrev pub second : ℕ
second = 1_000_000_000

abbrev pub minute : ℕ
minute = 60 * second

pub record UserRow : Type 0 where
  pub id : ℕ
  pub name : String
  pub email : String
  -- the hash
  pub password : String
  pub refresh_token_web : Option String
  pub refresh_token_web_updated_at : Option ℕ
  pub refresh_token_mobile : Option String
  pub refresh_token_mobile_updated_at : Option ℕ
  pub avatar_url : Option String
  pub created_at : ℕ
  pub updated_at : ℕ

-- the encrypted token as its bytes
pub record OauthRow : Type 0 where
  pub user_id : ℕ
  pub provider : String
  pub provider_user_id : String
  pub encrypted_token : List ℕ
  pub created_at : ℕ
  pub updated_at : ℕ

pub data RoomStatus : Type 0 where
  draft live ended : RoomStatus

pub data RoomTier : Type 0 where
  guest standard pro : RoomTier

pub record RoomRow : Type 0 where
  pub id : ℕ
  pub livekit_room_name : String
  pub host_guest_id : String
  pub title : String
  pub status : RoomStatus
  pub tier : RoomTier
  pub session_duration_mins : ℕ
  pub extend_used : Bool
  pub started_at : Option ℕ
  pub ended_at : Option ℕ
  pub created_at : ℕ

pub record ParticipantRow : Type 0 where
  pub room_livekit_name : String
  pub identity : String
  pub display_name : String
  pub joined_at : Option ℕ
  pub left_at : Option ℕ

pub record WebhookEventRow : Type 0 where
  pub event_id : String
  pub event_type : String
  pub received_at : ℕ

pub data RecordingStatus : Type 0 where
  recording completed failed : RecordingStatus

pub record RecordingRow : Type 0 where
  pub id : ℕ
  pub room_livekit_name : String
  pub egress_id : String
  pub status : RecordingStatus
  pub file_url : Option String
  pub file_size_bytes : Option ℕ
  pub duration_sec : Option ℕ
  pub created_at : ℕ
  pub completed_at : Option ℕ

pub data JobType : Type 0 where
  transcribe summarize : JobType

pub record TranscribePayload : Type 0 where
  pub room_livekit_name : String
  pub egress_id : String
  pub file_url : String

pub record SummarizePayload : Type 0 where
  pub room_livekit_name : String
  -- the number that strconv.ParseInt reads in the text, if it reads one
  pub transcript_id : Option ℕ
  pub category : String

-- json.RawMessage: the text of one of the two payloads, or one that does not decode.
pub data Payload : Type 0 where
  transcription : TranscribePayload → Payload
  summarization : SummarizePayload → Payload
  malformed : Payload

pub data JobStatus : Type 0 where
  pending running completed failed : JobStatus

pub record Job : Type 0 where
  pub id : ℕ
  pub type : JobType
  pub payload : Payload
  pub status : JobStatus
  pub attempts : ℕ
  pub max_retries : ℕ
  pub created_at : ℕ
  pub next_run_at : ℕ

pub record TranscriptRow : Type 0 where
  pub id : ℕ
  pub room_livekit_name : String
  pub recording_id : ℕ
  pub egress_id : String
  pub text : String
  pub duration_sec : ℕ
  pub created_at : ℕ

pub record ActionItem : Type 0 where
  pub assignee : String
  pub task : String
  pub deadline : String

pub record SummaryRow : Type 0 where
  pub id : ℕ
  pub transcript_id : ℕ
  pub room_livekit_name : String
  pub category : String
  pub executive_summary : String
  pub key_points : List String
  pub action_items : List ActionItem
  pub decisions_made : List String
  pub discussion_tags : List String
  pub model : String
  pub created_at : ℕ

-- The tables. `next_id` stands for the identity columns, which hand out each number once.
pub record Db : Type 0 where
  pub next_id : ℕ
  pub users : List UserRow
  pub oauth_connections : List OauthRow
  pub rooms : List RoomRow
  pub room_participants : List ParticipantRow
  pub webhook_events : List WebhookEventRow
  pub recordings : List RecordingRow
  pub job_queue : List Job
  pub transcripts : List TranscriptRow
  pub summaries : List SummaryRow
