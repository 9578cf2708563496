-- ===== src/Outreach.antt =====
-- services/outreach_queue.py and storage/outreach_queue_store.py: the queue of messages that are
-- planned, authorized, claimed, sent by a channel elsewhere, and finalized.
pub mod Rows
pub mod Store
pub mod Service
pub mod Session
pub mod Moves
pub mod Changes
pub mod Calls
pub mod History
pub mod Tests
