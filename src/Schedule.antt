-- ===== src/Schedule.antt =====
-- The package schedule: a graph of nodes that a control loop and one goroutine per node execute.
pub mod Graph
pub mod Lifecycle
pub mod Build
pub mod Decide
pub mod Run
pub mod Queue
pub mod Subgraph
mod Tests
