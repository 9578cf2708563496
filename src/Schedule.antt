-- ===== src/Schedule.antt =====
-- services/pipeline_scheduler.py: cron expressions, the search for runs, and the scheduler's tick.
pub mod Text
pub mod Field
pub mod Cron
pub mod Tick
pub mod Ranges
pub mod Values
pub mod Runs
pub mod Firing
pub mod Ticks
pub mod Splits
pub mod Components
pub mod Errors
pub mod Bounds
pub mod Tests
