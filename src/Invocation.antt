-- ===== src/Invocation.antt =====
-- The Worker Invocation state machine,
-- packages/creator-agent-broker-journal/src/worker-invocation.ts.
pub mod State
pub mod Reduction
pub mod Reduce
pub mod Journal
mod Evidence
mod Log
mod Attempts
mod Tests
