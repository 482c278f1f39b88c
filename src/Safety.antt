-- ===== src/Safety.antt =====
-- repository_safety.py: what is read of git's index before and after a run.
pub mod Index
