-- ===== src/Worker.antt =====
-- internal/worker/worker.go: one claimed document becomes durable OCR checkpoints.
pub mod Plan
pub mod Backoff
pub mod Transcribe
pub mod Attempts
pub mod World
pub mod Steps
pub mod Process
pub mod Delivers
pub mod Aligned
pub mod Whole
pub mod Asked
pub mod Run
pub mod Fallback
