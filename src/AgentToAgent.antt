-- ===== src/AgentToAgent.antt =====
-- Messages from one agent to another (`src/modules/agent-to-agent`).
pub mod Destinations
pub mod Files
pub mod Route
pub mod Written
pub mod ReturnPath
pub mod Reach
