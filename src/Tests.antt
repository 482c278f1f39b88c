-- ===== src/Tests.antt =====
-- Concrete runs of the modelled operations, by component.
mod Planning
mod Execution
mod Evidence
mod Settings
mod Environment
mod Preparation
mod Reporting
mod Executor
