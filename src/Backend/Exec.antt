-- ===== src/Backend/Exec.antt =====
-- Actions on the shared state. Each statement sent to Postgres, Redis or LiveKit may fail: the list
-- `faults` says which, in the order in which they are sent, and past its end none fails. Each
-- reading of the clock moves it by the next of `ticks`.
use gotel_reserves.Base.{ℕ, ◌+◌, String, Bool, true, false, Option, none, some, List, [], ◌∷◌}
use gotel_reserves.Backend.Rows.{Db, Job}

-- Go errors. A wrapped error (`%w`) is its innermost one, which is what `errors.Is` looks for.
pub data Error : Type 0 where
  room_not_found room_ended room_not_live plan_exceeded session_expired extend_once invalid_role :
      Error
  unknown_role not_the_host name_not_generated livekit_failed database_failed redis_failed : Error
  missing_room missing_participant missing_egress empty_egress : Error
  signing_failed hash_failed random_failed invalid_token encryption_failed : Error
  not_found not_configured transcription_failed rate_limited summary_failed malformed_payload :
      Error

pub data Result (A : Type 0) : Type 0 where
  ok : A → Result A
  err : Error → Result A

pub data VideoQuality : Type 0 where
  low medium high : VideoQuality

-- livekit.CreateRoomParams
pub record CreateRoomParams : Type 0 where
  pub room_name : String
  pub max_participants : ℕ
  pub empty_timeout_secs : ℕ
  pub metadata : String

-- A request to the LiveKit server that changes something there.
pub data Call : Type 0 where
  create_room : CreateRoomParams → Call
  delete_room : String → Call
  remove_participant : String → String → Call

-- The Redis keys: `queue:transcribe` and `queue:summarize`, `queue:delayed` with its scores,
-- `queue:dlq`. A list has its left end first.
pub record Redis : Type 0 where
  pub ready_transcribe : List Job
  pub ready_summarize : List Job
  pub delayed : List (ℕ × Job)
  pub dlq : List Job

pub record World : Type 0 where
  pub db : Db
  pub redis : Redis
  pub calls : List Call
  pub faults : List Bool
  pub ticks : List ℕ
  pub clock : ℕ
  -- the number of identifiers that `uuid.NewString` has handed out
  pub uuids : ℕ
  -- how many participants the LiveKit server counts in a room
  pub occupancy : String → ℕ

abbrev pub M : Type 0 → Type 0
M A = World → Result A × World

module _ {A : Type 0} where
  unfoldable pub pure : A → M A
  pure a w = (ok a, w)

  unfoldable pub raise : Error → M A
  raise e w = (err e, w)

  unfoldable pub or_raise : Option A → Error → M A
  or_raise none e w = (err e, w)
  or_raise (some a) e w = (ok a, w)

unfoldable pub raise_if : Bool → Error → M (Unit {0})
raise_if true e w = (err e, w)
raise_if false e w = (ok tt, w)

-- `if err := m; err != nil { log.Printf(...) }`: the error goes no further.
abbrev pub ignore : Result (Unit {0}) → Result (Unit {0})
ignore r = ok tt

unfoldable pub logged : M (Unit {0}) → M (Unit {0})
logged m w = let (r, w') = m w in (ignore r, w')

module _ {A B : Type 0} where
  abbrev pub and_then : Result A → (A → M B) → M B
  and_then (ok a) f w = f a w
  and_then (err e) f w = (err e, w)

  infixl 5 ◌>>=◌ ◌>>◌
  -- opening this opens the actions above too
  unfoldable pub ◌>>=◌ : M A → (A → M B) → M B
  unfolding pure raise or_raise raise_if logged
  ◌>>=◌ m f w = let (r, w') = m w in and_then r f w'

  abbrev pub ◌>>◌ : M A → M B → M B
  m >> k = m >>= λ _. k

  -- `x, err := m`, and what the code does with both
  unfoldable pub on_result : M A → (Result A → M B) → M B
  on_result m next w = let (r, w') = m w in next r w'

abbrev pub next_fault : List Bool → Bool × List Bool
next_fault [] = (false, [])
next_fault (b ∷ bs) = (b, bs)

-- One request over the network: it is lost with the given error, or takes effect.
module _ {A : Type 0} where
  abbrev answer : Bool → Error → M A → M A
  answer true e m w = (err e, w)
  answer false e m w = m w

  unfoldable pub request : Error → M A → M A
  request e m w =
      let (lost, rest) = next_fault w.faults in answer lost e m (record w { faults = rest })

  -- A statement that the database runs. One that it refuses changes nothing.
  abbrev store : World → Result A × Db → Result A × World
  store w (r, d) = (r, record w { db = d })

  unfoldable pub statement : (Db → Result A × Db) → M A
  unfolding request
  statement f = request database_failed (λ w. store w (f w.db))

-- `sql.Tx`: `BeginTx`, then the body and `Commit`, or the deferred `Rollback` after an error. What
-- the body did to Redis stays. Other connections are taken to act before or after it.
module _ {A : Type 0} where
  abbrev pub roll_back : Db → Result A × World → Result A × World
  roll_back before (ok a, w) = (ok a, w)
  roll_back before (err e, w) = (err e, record w { db = before })

  unfoldable pub commit : A → M A
  commit a = statement (λ d. (ok a, d))

  unfoldable pub atomically : M A → M A
  atomically body w = roll_back w.db ((body >>= commit) w)

unfoldable pub transaction : {A : Type 0} → M A → M A
transaction body = do statement (λ d. (ok tt, d)); atomically body

abbrev clock_after : ℕ → List ℕ → ℕ × List ℕ
clock_after t [] = (t, [])
clock_after t (d ∷ ds) = (t + d, ds)

-- time.Now()
unfoldable pub now : M ℕ
now w = let (t, rest) = clock_after w.clock w.ticks in (ok t, record w { clock = t; ticks = rest })

-- uuid.NewString(): each identifier once
unfoldable pub new_uuid : M ℕ
new_uuid w = (ok w.uuids, record w { uuids = w.uuids + 1 })
