-- ===== src/Leases.antt =====
-- services/account_leases.py: one holder at a time for an account of a platform.
pub mod Manager
pub mod Exclusion
pub mod Tests
