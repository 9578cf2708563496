-- ===== src/Decision.antt =====
-- services/pipeline_decisions.py and the checkpoints of storage/pipeline_live_store.py: the decisions
-- that a running job waits for.
pub mod Texts
pub mod Checkpoints
pub mod Definitions
pub mod Gate
pub mod Calls
pub mod Settled
pub mod Sessions
pub mod History
pub mod Decided
pub mod Human
pub mod Options
pub mod Deadline
pub mod Tests
