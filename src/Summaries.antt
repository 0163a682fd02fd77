-- ===== src/Summaries.antt =====
-- internals/summaries: the summaries that a language model writes of transcripts.
pub mod Chunks
pub mod Grok
pub mod Service
pub mod Stitching
pub mod Storing
pub mod Keeps
pub mod Tests
