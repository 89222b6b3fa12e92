-- ===== src/Probe.antt =====
-- internal/probe: the agent that runs on a machine and registers its network interfaces.
pub mod Network
pub mod Backoff
pub mod Agent
pub mod Laws
pub mod Ticks
