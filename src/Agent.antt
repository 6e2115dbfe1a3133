-- ===== src/Agent.antt =====
-- The agent runtime, runtime-go/internal/agent.
pub mod Dispatcher
pub mod Deferred
pub mod Runtime
pub mod Thinking
pub mod Guardrails
pub mod Normalize
pub mod Decision
pub mod Reasoning
pub mod Scheduler
