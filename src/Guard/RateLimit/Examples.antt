-- ===== src/Guard/RateLimit/Examples.antt =====
-- Two requests in a window of ten, and others between them.
use ecommerce_ops_agent.Base.{string_eq, ℕ, String, List, [], ◌∷◌, All, ◌≡◌, refl, min, ◌+◌, arith}
use ecommerce_ops_agent.Base.Int.{pos}
use ecommerce_ops_agent.Guard.RateLimit.{MemoryLimiter, window_at}
use ecommerce_ops_agent.Base.Dict.{lookup}
use ecommerce_ops_agent.Guard.RateLimit.Window.{granted, requests, NotAfter, quota, window_bound}

abbrev calls : List (ℕ × String)
calls = (101, "b") ∷ (102, "a") ∷ (110, "a") ∷ []

abbrev limiter : MemoryLimiter
limiter = record { counts = []; limit = pos 2; window = 10 }

opens : window_at 100 limiter.window (lookup "a" limiter.counts) ≡ record { n = 0; reset_at = 110 }
unfolding window_at lookup
opens = refl

calls-NotAfter : All (NotAfter (100 + limiter.window)) calls
calls-NotAfter = (omega arith, (omega arith, (omega arith, tt)))

window_bound_example :
    granted "a" limiter ((100, "a") ∷ calls)
    ≡ min (quota limiter.limit) (requests "a" ((100, "a") ∷ calls))
window_bound_example = window_bound 100 "a" limiter calls opens calls-NotAfter
