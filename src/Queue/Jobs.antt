-- ===== src/Queue/Jobs.antt =====
-- What the calls of internal/queue/queue.go do to the table of jobs.
pub mod Untouched
pub mod Step
pub mod Refinement
pub mod Valid
pub mod Keeps
pub mod Lifecycle
