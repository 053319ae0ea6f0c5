-- ===== src/Agent.antt =====
-- Agents, their versions and conversations: `MemoryAgentStore` of internal/platform/memory_store.go, and
-- internal/platform/agent/service.go, which makes and promotes the versions.
pub mod Record
pub mod Page
pub mod Snapshot
pub mod Service
pub mod Dependencies
pub mod Store
