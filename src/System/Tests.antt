-- ===== src/System/Tests.antt =====
-- A day of the backend.
use gotel_reserves.Base.{ℕ, ◌≤◌, String, some, none, List, [], ◌∷◌, ◌==◌, string_eq, arith}
use gotel_reserves.Backend.Rows.{transcribe}
use gotel_reserves.Backend.Exec.{World}
use gotel_reserves.LiveKit.{LiveKitService, service, service-IsRemote}
use gotel_reserves.Rooms.Lifecycle.{rank}
use gotel_reserves.Rooms.Columns.{AreSound}
use gotel_reserves.Accounts.Columns.{AreUsers}
use gotel_reserves.Webhooks.Events.{WebhookEvent}
use gotel_reserves.System.{
  Config, Event, post_room, get_token, post_extend, post_webhook, enforcer_tick, drain_tick,
  worker_turn, post_register, post_login, get_github_callback, run,
}
use gotel_reserves.System.Invariants.{run-AreSound, run-Advances, run-AreUsers}
use gotel_reserves.Samples.{two_rooms-AreSound, world, two_rooms, guest_tier}

abbrev config : Config (List ℕ)
config = record {
  guest_tier = guest_tier;
  spaces = record { endpoint = "nyc3.example.com"; bucket = "bucket" };
  deepgram = record { model = "nova-2"; language = "en" };
  deepgram_http = λ url. none;
  grok_model = "grok";
  grok_http = λ system user. none;
  jwt = record { sign = λ key c. some "tok"; parse = λ key t token. none };
  jwt_key = "key";
  hasher = record {
    hash_password = λ password. some password;
    check_hashed_password = λ hash password. hash == password;
  };
  codec = record { marshal = λ token. some token; unmarshal = λ bytes. some bytes };
  gcm = record {
    nonce_size = 2;
    seal = λ key nonce plaintext. plaintext;
    unseal = λ key nonce ciphertext. some ciphertext;
  };
  oauth_key = [];
  frontend_url = "https://recallo.tech";
  dummy = λ login. login;
}

abbrev lk : LiveKitService
lk = service "wss://host"

abbrev about : String → String → String → WebhookEvent
about id type name = record {
  id = id;
  event = type;
  room = some name;
  participant = none;
  egress_info = none;
}

abbrev day : List (Event (List ℕ))
day =
    post_room (some (10 ∷ 11 ∷ 12 ∷ 13 ∷ []))
      (some (record { title = "standup"; host_id = "host" }))
    ∷ post_webhook (some (about "EV_1" "room_started" "guest-0b"))
    ∷ get_token "2" "guest" "Ann" "true"
    ∷ post_extend "2" (some "guest")
    ∷ enforcer_tick
    ∷ post_webhook (some (about "EV_2" "room_finished" "guest-0a"))
    ∷ worker_turn transcribe
    ∷ drain_tick
    ∷ post_register (some (record { name = "Ann"; email = "ann@example.com"; password = "secret" }))
    ∷ post_login "web" (some (record { email = "ann@example.com"; password = "secret" }))
        (some "r1")
    ∷ get_github_callback "s" (some "s") (some (1 ∷ []))
        (λ token. some (some (record { id = "42"; login = "bob"; name = ""; email = "" })))
        (some "r2") (some (1 ∷ 2 ∷ []))
    ∷ []

abbrev morning : World
morning = world two_rooms []

run-AreSound_example : AreSound (run config lk day morning).db
run-AreSound_example =
    run-AreSound config lk (service-IsRemote "wss://host") day morning two_rooms-AreSound

run-Advances_example : rank 2 two_rooms.rooms ≤ rank 2 (run config lk day morning).db.rooms
run-Advances_example = run-Advances config lk (service-IsRemote "wss://host") day morning 2

run-AreUsers_example : AreUsers (run config lk day morning).db
run-AreUsers_example =
    run-AreUsers config lk (service-IsRemote "wss://host") day morning
      (record { emails_apart = tt; ids_apart = tt; numbered = tt; some_id = omega arith })
