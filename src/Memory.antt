-- ===== src/Memory.antt =====
-- The packages below memory/: what is remembered, where it is stored, and for how long.
pub mod Item
pub mod InMemory
pub mod IdQueue
pub mod IdRing
pub mod ShortTerm
pub mod Episodic
pub mod LongTerm
pub mod Manager
pub mod GraphStore
pub mod VectorStore
mod Tests
mod StoreTests
mod ShortTermTests
mod LongTermTests
