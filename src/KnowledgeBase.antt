-- ===== src/KnowledgeBase.antt =====
-- internal/platform/kb: documents on their way into the index.
pub mod Runes
pub mod Chunk
pub mod Record
pub mod Store
pub mod Ingest
pub mod Sync
pub mod Service
