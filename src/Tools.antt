-- ===== src/Tools.antt =====
-- The package tools: the tools that an agent may call.
pub mod Registry
mod Tests
pub mod Schema
pub mod Stream
