-- ===== src/Cache.antt =====
-- internal/runtime/cache: the cache of embeddings, and the store of idempotent responses.
pub mod Embedding
pub mod Idempotent
