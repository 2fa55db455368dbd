-- ===== src/Soar.antt =====
-- backend/app/modules/soar.
pub mod Json
pub mod Models
pub mod Conditions
pub mod Validation
pub mod Graph
pub mod World
pub mod Context
pub mod StepRuns
pub mod StepTypes
pub mod Executions
pub mod Approvals
pub mod Delays
pub mod Examples
