-- ===== src/Gateway.antt =====
-- The panel gateway, panel/crates/gateway.
pub mod RateLimit
pub mod Session
pub mod Registry
pub mod AgentAuth
pub mod HostsConfig
pub mod Enrollment
pub mod Handshake
pub mod Client
pub mod Auth
pub mod Origin
pub mod Pam
pub mod Admin
