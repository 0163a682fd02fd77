-- ===== src/Lib.antt =====
-- Recallo: rooms for guests on LiveKit, and the pipeline that turns a recorded room into a transcript
-- and a summary.
--
-- The parts. The backend keeps rooms, attendance, recordings, jobs, transcripts and summaries in
-- Postgres; jobs also lie in lists of Redis. Guests reach the rooms over HTTP (internals/rooms/handler.go,
-- internals/rooms/service.go), which asks the LiveKit server for rooms and tokens
-- (internals/livekit/service.go). LiveKit reports by webhook (internals/webhooks/handler.go) that a room
-- started or finished, who joined and left, and that a recording is complete; the latter enqueues a
-- `transcribe` job (internals/jobs/client.go). Workers (internals/jobs/worker.go) hand jobs to the
-- transcription (internals/transcripts), which enqueues a `summarize` job for internals/summaries. A job
-- is tried five times at most. A ticker (internals/rooms/session_enforcer.go) ends the sessions that are
-- over. Registered users log in (internals/handlers/login.go), with GitHub too
-- (internals/handlers/oauth.go), and talk to each other over websockets (internals/routes/websocket.go,
-- internals/realtime), which keep conversations and messages in Postgres (internals/models).
--
-- Which file models what:
--   Base             lists, slices, texts and tests on native numbers; `find`, `select`, `update_where` and
--                    `upsert_where` are the SQL statements on the rows of a table, Newest the ORDER BY
--                    and Keys the UNIQUE constraints
--   Backend          the tables (db/sql.db.go) as records of lists, Redis, the clock, and the monad `M`
--                    of the actions on them; `Preserves` has the rules for invariants, `Transactions`
--                    and `Runs` say what a run that fails or succeeds says of its parts
--   LiveKit          internals/livekit/service.go, and the interface of internals/rooms/domain.go
--   Rooms            Repository, Service, Enforcer and Handler are the code of internals/rooms; Lifecycle
--                    and Columns say what stays true of the table, Methods and Serving that the code
--                    keeps it, Tokens, Issuing, Sessions, Creating and Enforcing what the methods do
--   Jobs             Queue, Client and Worker are the code of internals/jobs; Enqueue, Retries and
--                    Delayed say what it does, Keeps what it leaves alone, Rounds and Exhaustion are about
--                    a job that fails each time
--   Webhooks         Events and Handler are internals/webhooks/handler.go; Replay is about events that
--                    come again, Recordings about the event that completes a recording,
--                    Attendance about the participants of a room
--   Transcripts      Spaces, Deepgram and Service are the code of internals/transcripts; Storing is
--                    about what a job leaves in the tables, Urls about the URLs of recordings
--   Summaries        Chunks, Grok and Service are the code of internals/summaries; Stitching is about
--                    the chunks of a long text, Storing about what a job leaves in the tables
--   Insights         Reading is the read-only handlers internals/transcripts/handler.go and
--                    internals/summaries/handler.go, Pipeline internals/insights/handler.go; Keeps says
--                    that they leave the tables alone, Progress what the latter shows
--   Realtime         Hub is internals/realtime and the calls that internals/routes/websocket.go makes of
--                    it; Payloads, Incoming and Connection are internals/routes/websocket.go, what a client
--                    sends and who gets a connection; Sending and Open are about channels that are closed,
--                    Marks, Honesty, Posting and Arrival about what becomes of the messages
--   Conversations    Messages is internals/models/message.go, Private is internals/models/private.go,
--                    Handlers and the paging in Messages are internals/handlers/convo.go; Paging and
--                    Delivery are about what is shown and what is marked, Pairs about the conversations of
--                    two users
--   Accounts         Users is internals/models/user.go and the statements of refresh-token.go, Tokens is
--                    internals/utils/jwt.go and the middleware, Handlers the handlers of registration,
--                    login, sessions and logout; Columns says what stays true of the table, Keeps and
--                    Middleware that the handlers keep it, Starting, Sessions and Rotation what a login,
--                    a refresh and a logout do; Encryption is internals/security/encryption.go and Oauth
--                    internals/models/oauth.go and internals/handlers/oauth.go, Connections and
--                    Nameless are about what comes of signing in with GitHub, Callback about what
--                    it leaves alone
--   System           cmd/api/main.go: the parts put together, as lists of events
--   Samples          states that the modules of tests use
--
-- Functions keep the names of the code in lower case: `CreateGuestRoom` is `create_guest_room`. A method
-- takes what its receiver holds as arguments.
--
-- Faults and time. Each statement to Postgres, and each request to Redis and LiveKit, takes the
-- next entry of the list `faults` of the state: it is lost, or takes effect. A statement about all
-- states is thus about all choices of the requests that are lost; one that takes effect while its
-- acknowledgement is lost is not modelled. `sql.Tx` keeps the tables of its start and restores them
-- on an error; what the body did to Redis stays. The number of the next row is restored too, where
-- a sequence of Postgres would leave a gap. Each reading of the clock moves it by the next entry of
-- `ticks`. A moment is a number of nanoseconds. Handlers run to their end one after the other:
-- interleavings within a handler are not modelled.
--
-- Fuel. `split_into_chunks` takes a round for each rune of the text, which is enough because a step is
-- at least one rune for a positive chunk size. All other loops recurse on a list or a text.
--
-- Parameters: the answers of the transcription service and of the language model (arguments `http`), the
-- LiveKit server behind the interface `LiveKitService` (a law says that it does not write to the tables),
-- the random bytes of a room's name, the random text of a refresh token, the texts that are moments
-- (`is_time`), the libraries for signed tokens and password hashes (`JwtLibrary`, `Hasher`; a law says
-- that a signed token parses until it expires), the encryption of crypto/cipher (`Gcm`; a law says that
-- what was sealed is opened), the JSON of golang.org/x/oauth2 (`TokenCodec`) and the answers of GitHub.
--
-- Not modelled: the pumps of the websockets (internals/routes/websocket.go), the start of a sign-in
-- with GitHub, which only redirects, the search for users, which is a stub, files, logging, and
-- configuration from the environment. The events of System are the routes, ticks and rounds that
-- use the tables of the rooms, the jobs and the users; the websockets and the conversations have
-- states of their own, as no statement of the code reads their tables and those of the rooms.
-- Members of equal score in a sorted set keep the order in which they came, where Redis orders them
-- by their text. A URL is not parsed and encoded anew, and a key of a client's payload is matched
-- as it is spelled, where encoding/json ignores the case. The signatures of LiveKit's tokens and of
-- URLs (JWT, HMAC) are modelled by what is signed.
pub mod Accounts
pub mod Backend
pub mod Base
pub mod Conversations
pub mod Insights
pub mod Jobs
pub mod LiveKit
pub mod Realtime
pub mod Rooms
pub mod Samples
pub mod Summaries
pub mod System
pub mod Transcripts
pub mod Webhooks
