-- ===== src/Router.antt =====
-- The inbound router (`src/router.ts`): from an event of a channel to the sessions of the agents
-- that are wired to it. An exception ends the routing, with what was done before it in place.
pub mod State
pub mod Deliver
pub mod Fanout
pub mod Inbound
pub mod WakeRows
pub mod TablesKept
pub mod Refused
