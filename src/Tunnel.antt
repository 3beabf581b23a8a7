-- ===== src/Tunnel.antt =====
-- internal/tunnel: the messages that cross the tunnel between agent and controller, and what is
-- computed from them on both sides.
pub mod Messages
pub mod Headers
pub mod Request
pub mod Cancel
pub mod AgentInfo
