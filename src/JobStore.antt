-- ===== src/JobStore.antt =====
-- storage/pipeline_job_store.py: the durable job system that the API, the scheduler, the dispatcher
-- and the runner share. A method that gets a session takes the tables and returns them; `now` is
-- what `datetime.utcnow()` gives, and exceptions are values of `StoreError`.
pub mod Rows
pub mod Create
pub mod Claim
pub mod Status
pub mod Stages
pub mod Decisions
pub mod Cancel
pub mod Recover
pub mod Guards
pub mod Moves
pub mod Evolution
pub mod Outcomes
pub mod Endings
pub mod Session
pub mod Lifecycle
pub mod Selection
pub mod Gates
pub mod Coherence
pub mod Decided
pub mod Ended
pub mod Cancelled
pub mod Coherent
pub mod Losses
pub mod Recovery
pub mod Requests
pub mod Pauses
pub mod Tests
