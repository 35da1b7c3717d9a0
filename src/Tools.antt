-- ===== src/Tools.antt =====
-- src/custom-tools.ts: custom tools. Validation, the test for circular composition, execution.
pub mod Cycles
pub mod Validation
pub mod TempTables
pub mod Steps
pub mod Prepare
pub mod SingleSql
pub mod PipelineStep
pub mod Compose
