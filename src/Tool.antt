-- ===== src/Tool.antt =====
-- internal/platform/tool: the registry of tools, over its in-memory store.
pub mod Record
pub mod Store
