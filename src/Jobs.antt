-- ===== src/Jobs.antt =====
-- internals/jobs: the queue of pipeline jobs, in Postgres and in Redis.
pub mod Queue
pub mod Client
pub mod Worker
pub mod Retries
pub mod Rounds
pub mod Exhaustion
pub mod Keeps
pub mod Enqueue
pub mod Tests
pub mod Delayed
