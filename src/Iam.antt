-- ===== src/Iam.antt =====
-- internal/platform/iam and its in-memory store: users, workspaces, and who may manage whom.
pub mod Record
pub mod Store
pub mod Service
