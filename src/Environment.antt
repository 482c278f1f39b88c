-- ===== src/Environment.antt =====
-- repository_environment.py: the dependencies that the selected Checks need of the repository, and
-- which of their versions are supported.
pub mod Versions
pub mod Dependencies
pub mod Preparation
