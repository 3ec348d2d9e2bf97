-- ===== src/Finalize.antt =====
-- internal/finalize/finalize.go: the side effects of a finished job, one durable stage after another.
pub mod World
pub mod Steps
pub mod Process
pub mod Run
pub mod Hoare
pub mod Steady
pub mod Reserving
pub mod Runs
pub mod Bodies
pub mod AtMostOnce
