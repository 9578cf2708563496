-- ===== src/Concurrency.antt =====
-- services/pipeline_concurrency.py: how many jobs run on a platform, and one job for an account.
pub mod Manager
pub mod Counts
pub mod Limits
pub mod Tests
