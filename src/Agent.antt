-- ===== src/Agent.antt =====
-- The orchestrator that routes a message to a handler: app/agent/orchestrator/.
pub mod Cache
pub mod Engine
pub mod Dispatcher
pub mod Routing
pub mod Matchers
