-- ===== src/Transcripts.antt =====
-- internals/transcripts: from a finished recording to a transcript.
pub mod Spaces
pub mod Deepgram
pub mod Service
pub mod Storing
pub mod Keeps
pub mod Tests
pub mod Urls
