-- ===== src/Queue.antt =====
-- internal/queue: the durable, single-active-worker priority queue.
pub mod Model
pub mod Valid
pub mod Transaction
pub mod Enqueue
pub mod Candidates
pub mod Leases
pub mod Transitions
pub mod Batches
pub mod Finalizing
pub mod Failures
pub mod Calls
pub mod Jobs
pub mod Fence
pub mod ClaimOrder
pub mod Columns
pub mod Stages
pub mod Dispatches
pub mod Errors
pub mod Engaged
pub mod Reservation
pub mod Depth
pub mod Plans
pub mod Begin
pub mod DispatchSteps
pub mod StageSteps
