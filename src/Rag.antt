-- ===== src/Rag.antt =====
-- The package rag: the pieces of a text that are stored for retrieval.
pub mod Chunker
pub mod Paragraphs
mod Tests
