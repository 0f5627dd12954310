-- ===== src/Agent.antt =====
-- The agent that runs on each host, agent/src.
pub mod Router
pub mod Util
pub mod Session
pub mod Commands
pub mod Files
pub mod Cron
pub mod Ssh
pub mod Ini
pub mod Users
pub mod Hosts
