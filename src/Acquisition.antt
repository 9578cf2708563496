-- ===== src/Acquisition.antt =====
-- storage/acquisition_store.py: the campaigns and the keywords of acquisition jobs.
pub mod Rows
pub mod Store
pub mod Candidates
pub mod Audits
pub mod Trails
pub mod Tests
