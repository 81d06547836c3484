-- ===== src/Transcription.antt =====
-- The transcription pipeline: internal/features/workers/transcription.
pub mod Jobs
pub mod Pipeline
pub mod Enqueue
pub mod Accounted
pub mod Enqueued
mod EnqueueExamples
pub mod Chunker
