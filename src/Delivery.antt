-- ===== src/Delivery.antt =====
-- Delivery of what the agents write (`src/delivery.ts`).
pub mod State
pub mod Message
pub mod Drain
pub mod Keeps
pub mod Kept
pub mod Progress
pub mod Rounds
pub mod Allowed
pub mod Idle
