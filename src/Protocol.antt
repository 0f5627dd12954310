-- ===== src/Protocol.antt =====
-- The wire protocol, protocol/src.
pub mod Json
pub mod Channel
pub mod Message
pub mod Challenge
pub mod JsonTree
mod Tests
