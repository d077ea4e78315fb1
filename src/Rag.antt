-- ===== src/Rag.antt =====
-- internal/rag: how a document is cut into chunks.
pub mod Chunker
pub mod Defaults
pub mod Pipeline
mod Tests
