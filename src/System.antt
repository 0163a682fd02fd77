-- ===== src/System.antt =====
-- cmd/api/main.go: the parts of the backend put together. What happens to it is a list of events;
-- each is handled to its end before the next one.
pub mod Invariants
pub mod Tests
use gotel_reserves.Base.{ℕ, String, Option, none, some, List, [], ◌∷◌}
use gotel_reserves.Backend.Rows.{JobType, transcribe, summarize}
use gotel_reserves.Backend.Exec.{World, M, ignore, Result}
use gotel_reserves.LiveKit.{LiveKitService}
use gotel_reserves.Rooms.Service.{GuestTierConfig}
use gotel_reserves.Rooms.Enforcer.{enforce_all}
use gotel_reserves.Rooms.Handler.{
  CreateRoomBody, handle_create_room, handle_list_rooms, handle_get_room, handle_end_room,
  handle_issue_guest_token, handle_extend_session,
}
use gotel_reserves.Accounts.Tokens.{JwtLibrary, Hasher, authenticate}
use gotel_reserves.Accounts.Handlers.{
  RegisterRequest, EmailLoginRequest, handle_user_registration, handle_email_login,
  handle_refresh_session, handle_get_current_user, handle_logout, handle_get_user_by_id,
}
use gotel_reserves.Accounts.Encryption.{Gcm}
use gotel_reserves.Accounts.Oauth.{TokenCodec, GithubUser, handle_github_auth_callback}
use gotel_reserves.Insights.Reading.{
  handle_get_transcript_by_room_name, handle_get_transcript_by_id, handle_get_summary_by_room_name,
  handle_get_summary_by_transcript_id, handle_get_summary_by_id,
}
use gotel_reserves.Insights.Pipeline.{handle_get_by_room_name}
use gotel_reserves.Jobs.Worker.{HandlerFunc, worker_round, drain_delayed}
use gotel_reserves.Webhooks.Events.{WebhookEvent}
use gotel_reserves.Webhooks.Handler.{handle_webhook}
use gotel_reserves.Transcripts.Spaces.{SpacesConfig, PresignedUrl}
use gotel_reserves.Transcripts.Deepgram.{DeepgramConfig, HttpAnswer}
use gotel_reserves.Transcripts.Service as TranscriptService
use gotel_reserves.Summaries.Grok.{SystemPrompt, UserMessage, ChatAnswer}
use gotel_reserves.Summaries.Service as SummaryService

-- What `main` configures, and the services outside that answer.
-- `T` is the type of the tokens of GitHub.
pub record Config (T : Type 0) : Type 0 where
  pub guest_tier : GuestTierConfig
  pub spaces : SpacesConfig
  pub deepgram : DeepgramConfig
  pub deepgram_http : PresignedUrl → Option HttpAnswer
  pub grok_model : String
  pub grok_http : SystemPrompt → UserMessage → Option ChatAnswer
  pub jwt : JwtLibrary
  pub jwt_key : String
  pub hasher : Hasher
  pub codec : TokenCodec T
  pub gcm : Gcm
  pub oauth_key : List ℕ
  pub frontend_url : String
  pub dummy : String → String

pub data Event (T : Type 0) : Type 0 where
  post_room : Option (List ℕ) → Option CreateRoomBody → Event T
  get_rooms get_room : String → Event T
  delete_room : String → String → Event T
  get_token : String → String → String → String → Event T
  post_extend : String → Option String → Event T
  post_webhook : Option WebhookEvent → Event T
  enforcer_tick drain_tick : Event T
  worker_turn : JobType → Event T
  post_register : Option RegisterRequest → Event T
  -- the header X-Platform, the body, and what crypto/rand gives
  post_login : String → Option EmailLoginRequest → Option String → Event T
  post_refresh_session : String → Option String → Option String → Event T
  -- the headers Authorization and X-Platform
  post_logout : String → String → Event T
  get_current_user : String → String → Option String → Event T
  get_user : String → String → Option ℕ → Event T
  get_transcript_of get_summary_of get_insights : String → Event T
  get_transcript get_summary get_summary_by_transcript : Option ℕ → Event T
  -- the state, the cookie, the token for the code, the answers of GitHub, and what crypto/rand gives
  get_github_callback :
      String
      → Option String
      → Option T
      → (T → Option (Option GithubUser))
      → Option String
      → Option (List ℕ)
      → Event T

module _ {T : Type 0} (cfg : Config T) (lk : LiveKitService) where
  -- workerPool.Register
  abbrev pub handlers : JobType → Option HandlerFunc
  handlers transcribe = some (TranscriptService.handle cfg.spaces cfg.deepgram cfg.deepgram_http)
  handlers summarize = some (SummaryService.handle cfg.grok_model cfg.grok_http)

  -- the state after an event; a reply goes to the client
  unfoldable pub serve : Event T → World → World
  serve (post_room random body) w = (handle_create_room lk cfg.guest_tier random body w).1
  serve (get_rooms host) w = (handle_list_rooms host w).1
  serve (get_room raw) w = (handle_get_room raw w).1
  serve (delete_room raw guest) w = (handle_end_room lk raw guest w).1
  serve (get_token raw guest name is_host) w =
      (handle_issue_guest_token lk cfg.guest_tier raw guest name is_host w).1
  serve (post_extend raw body) w = (handle_extend_session cfg.guest_tier raw body w).1
  serve (post_webhook event) w = (handle_webhook event w).1
  serve enforcer_tick w = (enforce_all lk w).1
  serve drain_tick w = (drain_delayed w).1
  serve (worker_turn type) w = (worker_round handlers type w).1
  serve (post_register body) w = (handle_user_registration cfg.hasher body w).1
  serve (post_login platform body random) w =
      (handle_email_login cfg.jwt cfg.jwt_key random cfg.hasher platform body w).1
  serve (post_refresh_session platform body random) w =
      (handle_refresh_session cfg.jwt cfg.jwt_key random platform body w).1
  serve (post_logout auth platform) w =
      (authenticate handle_logout cfg.jwt cfg.jwt_key auth platform w).1
  serve (get_current_user auth platform body) w =
      (authenticate (λ i. handle_get_current_user platform body) cfg.jwt cfg.jwt_key auth platform
        w).1
  serve (get_user auth platform id) w =
      (authenticate (λ i. handle_get_user_by_id id) cfg.jwt cfg.jwt_key auth platform w).1
  serve (get_transcript_of name) w = (handle_get_transcript_by_room_name name w).1
  serve (get_summary_of name) w = (handle_get_summary_by_room_name name w).1
  serve (get_insights name) w = (handle_get_by_room_name name w).1
  serve (get_transcript id) w = (handle_get_transcript_by_id id w).1
  serve (get_summary id) w = (handle_get_summary_by_id id w).1
  serve (get_summary_by_transcript id) w = (handle_get_summary_by_transcript_id id w).1
  serve (get_github_callback state cookie token fetch random nonce) w =
      (handle_github_auth_callback cfg.codec cfg.gcm cfg.oauth_key cfg.jwt cfg.jwt_key random nonce
        cfg.frontend_url cfg.hasher cfg.dummy state cookie token fetch w).1

  unfoldable pub run : List (Event T) → World → World
  run [] w = w
  run (e ∷ es) w = run es (serve e w)
