-- ===== src/Middleware.antt =====
-- internal/api/middleware: what a request passes before it reaches its handler.
pub mod Idempotency
pub mod Auth
pub mod Locks
