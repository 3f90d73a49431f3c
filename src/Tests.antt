-- ===== src/Tests.antt =====
-- Concrete inputs: tests of the definitions, and the theorems applied where their hypotheses hold.
mod Loop
mod Senders
mod Data
mod Sweep
mod Protocol
mod Tasks
mod Gate
mod Session
mod Router
mod Agents
mod Delivery
mod ChatState
mod Startup
mod Mounts
mod Cli
