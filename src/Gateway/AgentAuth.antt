-- ===== src/Gateway/AgentAuth.antt =====
-- panel/crates/gateway/src/agent_auth.rs: signatures, bootstrap tokens and pending agents.
pub mod Compare
pub mod Tokens
pub mod Pending
pub mod Signature
mod Tests
mod PendingTests
