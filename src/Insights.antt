-- ===== src/Insights.antt =====
-- What the pipeline left, as the read-only handlers of internals/insights, internals/transcripts and
-- internals/summaries show it.
pub mod Reading
pub mod Pipeline
pub mod Keeps
pub mod Progress
pub mod Tests
