-- ===== src/Reconcile.antt =====
-- internal/reconcile/reconcile.go.
pub mod World
pub mod Checkpoint
pub mod Passes
pub mod Triples
pub mod Visited
pub mod Sound
pub mod Idle
pub mod Pages
pub mod Scan
