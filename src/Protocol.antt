-- ===== src/Protocol.antt =====
-- How the host and the container share a session's two databases.
pub mod Seq
pub mod Lookup
