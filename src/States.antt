-- ===== src/States.antt =====
-- models/pipeline_states.py: the vocabularies of the pipeline and their transition tables.
-- A status is a constructor; the text the database stores for it is `name`, and `parse` reads it
-- back. What the source raises as `ValueError` is `StateError`.
pub mod JobStatus
pub mod StageStatus
pub mod Stage
pub mod Review
pub mod Paths
pub mod StagePaths
pub mod Reviews
mod Tests
