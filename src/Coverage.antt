-- ===== src/Coverage.antt =====
-- coverage_evidence.py: the coverage result, and when its threshold decides a run.
pub mod Gate
pub mod Result
pub mod Codes
pub mod Build
pub mod Decision
