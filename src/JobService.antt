-- ===== src/JobService.antt =====
-- services/pipeline_jobs.py, PipelineJobService: the entry point through which jobs are created,
-- cancelled and retried.
pub mod Rows
pub mod Preflight
pub mod Calls
pub mod Validated
pub mod Preflighted
pub mod Requested
pub mod Created
pub mod Ordered
pub mod Retried
pub mod Copies
pub mod Copied
pub mod Tests
