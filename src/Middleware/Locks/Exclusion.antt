-- ===== src/Middleware/Locks/Exclusion.antt =====
-- Two threads never hold the lock of one key, however their steps interleave.
use ecommerce_ops_agent.Base.{
  ℕ, zero, suc, ◌≡◌, ◌≢◌, refl, String, some, string_eq, nat_eq, arith, sym,
}
use ecommerce_ops_agent.Base.Dict.{lookup}
use ecommerce_ops_agent.Middleware.Locks.Slots.{get, sum, two-sum}
use ecommerce_ops_agent.Middleware.Locks.{
  Phase, idle, holding, State, new_keyed_locks, idles, Reaches, start, after,
}
use ecommerce_ops_agent.Middleware.Locks.Counting.{counts, holds, Agrees, Placed, Counted}
use ecommerce_ops_agent.Middleware.Locks.Steps.{step-Counted}

idles-idle : (n t : ℕ) (p : Phase) → get t (idles n) ≡ some p → p ≡ idle
unfolding idles get
idles-idle zero t p standing = ground (arith, standing)
idles-idle (suc n) zero p standing = ground (arith, standing)
idles-idle (suc n) (suc t) p standing = idles-idle n t p standing

sum-idles : (f : Phase → ℕ) (n : ℕ) → f idle ≡ 0 → sum f (idles n) ≡ 0
unfolding idles sum
sum-idles f zero none_counted = refl
sum-idles f (suc n) none_counted = omega (arith, none_counted, sum-idles f n none_counted)

new-Counted : (n : ℕ) → Counted (new_keyed_locks n)
unfolding new_keyed_locks Counted Placed Agrees lookup
new-Counted n = (
  λ t p key a standing at. absurd (ground (arith, at, idles-idle n t p standing)),
  λ a. sym (sum-idles (counts a) n refl),
  λ a. sym (sum-idles (holds a) n refl),
)

pub Reaches-Counted : (s u : State) → Counted s → Reaches s u → Counted u
Reaches-Counted s u c start = c
Reaches-Counted s u c (after {t} path action stepped) =
    step-Counted action t u (Reaches-Counted s t c path) stepped

pub reachable-Counted : (n : ℕ) (s : State) → Reaches (new_keyed_locks n) s → Counted s
reachable-Counted n s path = Reaches-Counted (new_keyed_locks n) s (new-Counted n) path

-- However the steps of any number of threads interleave, no two of them hold the lock of one key: while
-- one thread holds it, no other does, at any address. So the handlers of one scoped key run one after
-- the other.
pub locks_exclude :
    (n t u : ℕ) (key : String) (a b : ℕ) (s : State)
    → Reaches (new_keyed_locks n) s
    → t ≢ u
    → get t s.threads ≡ some (holding key a)
    → get u s.threads ≢ some (holding key b)
unfolding Counted Placed Agrees
locks_exclude n t u key a b s path differ first second =
    let (placed, _, locks) = reachable-Counted n s path in
    let same_lock : a ≡ b = ground (
      arith,
      placed t (holding key a) key a first refl,
      placed u (holding key b) key b second refl,
    ) in
    ground (
      arith,
      locks a,
      same_lock,
      two-sum (holds a) t u (holding key a) (holding key b) s.threads differ first second,
    )
