-- ===== src/Memory/VectorStore.antt =====
-- `PgvectorStore` of memory/store/pgvector/pgvector.go: its checks, the texts and arguments of its
-- statements, and what it makes of the answers. The database, the embedding service and JSON are
-- parameters.
pub mod Text
pub mod Methods
mod Tests
