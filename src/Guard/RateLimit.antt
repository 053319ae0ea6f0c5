-- ===== src/Guard/RateLimit.antt =====
-- `memoryLimiter` of internal/runtime/guard/ratelimit.go: a fixed window for each key. `Allow` under
-- the mutex is a function to the new limiter and its answer; the clock is its argument.
pub mod Window
pub mod Examples
use ecommerce_ops_agent.Base.{
  ℕ, ◌+◌, String, [], Bool, Option, none, some, if◌then◌else◌, ltb, string_eq,
}
use ecommerce_ops_agent.Base.Int.{ℤ, pos, leb_ℤ}
use ecommerce_ops_agent.Base.Dict.{Dict, lookup, insert}

pub record WinCount : Type 0 where
  pub n : ℕ
  pub reset_at : ℕ

pub record MemoryLimiter : Type 0 where
  pub counts : Dict String WinCount
  pub limit : ℤ
  pub window : ℕ

pub new_memory_limiter : ℤ → ℕ → MemoryLimiter
new_memory_limiter limit window = record { counts = []; limit = limit; window = window }

-- The window that a request counts in: a new one where there is none, or where it has ended.
pub window_at : ℕ → ℕ → Option WinCount → WinCount
window_at now window none = record { n = 0; reset_at = now + window }
window_at now window (some c) =
    if ltb c.reset_at now then record { n = 0; reset_at = now + window } else c

pub allow : ℕ → String → MemoryLimiter → MemoryLimiter × Bool
unfolding window_at
allow now key l =
    let c = window_at now l.window (lookup key l.counts) in
    (
      record l { counts = insert key (record c { n = c.n + 1 }) l.counts },
      leb_ℤ (pos (c.n + 1)) l.limit,
    )

-- The identity that a rule counts under is the prefix of the rule and the key in the context.
pub rate_key : Option String → String
rate_key none = "anon"
rate_key (some key) = key
