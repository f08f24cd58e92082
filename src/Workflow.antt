-- ===== src/Workflow.antt =====
-- The workflow engine: the graphs that authors draw, their validation, and their routes.
pub mod Dsl
pub mod Bus
pub mod Compiler
pub mod Webhook
pub mod Service
pub mod Execution
pub mod State
