-- ===== src/Guard.antt =====
-- internal/runtime/guard: what stands between a request and the agent.
pub mod RateLimit
