-- ===== src/Container.antt =====
-- The agent-runner inside the container: `container/agent-runner/src`.
pub mod MessagesIn
pub mod MessagesOut
pub mod Commands
