-- ===== src/Agent.antt =====
-- The package agent: agents that ask a model and run the tools that it calls.
pub mod React
pub mod Transcript
pub mod Provider
pub mod Requests
pub mod Plan
pub mod SameLoop
mod Tests
mod RequestTests
