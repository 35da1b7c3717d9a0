-- ===== src/Tests.antt =====
-- Tests, and each theorem at an input.
pub mod Fixtures
pub mod Queries
pub mod Sql
pub mod Calls
pub mod Clients
pub mod ToolRuns
pub mod AuditLogs
pub mod Pipelines
pub mod Explorers
pub mod Templates
