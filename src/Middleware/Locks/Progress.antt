-- ===== src/Middleware/Locks/Progress.antt =====
-- A thread that waits for a lock gets it, at once or after one step of the thread that holds it.
use ecommerce_ops_agent.Base.{
  ℕ, ◌≡◌, ◌≢◌, ◌<◌, ◌⊎◌, String, true, false, some, string_eq, nat_eq, arith, Bool-cases, inl, inr,
  subst, ap, ◌∙◌,
}
use ecommerce_ops_agent.Base.Dict.{lookup-insert_self}
use ecommerce_ops_agent.Middleware.Locks.Slots.{get, get-set_ne, sum-get}
use ecommerce_ops_agent.Middleware.Locks.{
  KeyedLock, Phase, idle, waiting, holding, leaving, State, take, unlock, new_keyed_locks,
  at_address, released, step, Reaches, move, write, or_new,
}
use ecommerce_ops_agent.Middleware.Locks.Exclusion.{reachable-Counted}
use ecommerce_ops_agent.Middleware.Locks.Counting.{Counted, Agrees, holds}

-- The holder of a lock.
holder : (p : Phase) (a : ℕ) → 0 < holds a p → (key : String) × (p ≡ holding key a)
holder idle a positive = absurd (ground (arith, positive))
holder (waiting _ _) a positive = absurd (ground (arith, positive))
holder (leaving _ _) a positive = absurd (ground (arith, positive))
holder (holding key b) a positive = (key, ground (arith, positive))

abbrev grabbed : ℕ → String → ℕ → State → State
grabbed t key a s = move t (holding key a) (write a (record (at_address a s) { locked = true }) s)

take_lem :
    (t : ℕ) (key : String) (a : ℕ) (s : State)
    → get t s.threads ≡ some (waiting key a)
    → (at_address a s).locked ≡ false
    → step (take t) s ≡ some (grabbed t key a s)
unfolding step
take_lem t key a s waits free = ground (arith, waits, free)

-- In every state that the threads reach, a thread that waits for the lock of a key can take it now, or
-- some thread holds that very lock and can release it, and then the waiting thread can take it: no set
-- of threads is stuck.
pub waiting_served :
    (n t : ℕ) (key : String) (a : ℕ) (s : State)
    → Reaches (new_keyed_locks n) s
    → get t s.threads ≡ some (waiting key a)
    → ((u : State) × (step (take t) s ≡ some u))
      ⊎ ((h : ℕ) × (v : State) × (u : State) × (step (unlock h) s ≡ some v)
          × (step (take t) v ≡ some u))
unfolding step Counted Agrees
waiting_served n t key a s path waits = elim (Bool-cases (at_address a s).locked) [
  | inr e ↦ inl (grabbed t key a s, take_lem t key a s waits e)
  | inl e ↦
      let (_, _, locks) = reachable-Counted n s path in
      let (h, p, stands, positive) = sum-get (holds a) s.threads (ground (arith, e, locks a)) in
      let (own, is_holding) = holder p a positive in
      let lock : KeyedLock = record (at_address a s) { locked = false } in
      let v = released h own a s in
      let apart : t ≢ h = λ same. ground (
        arith,
        is_holding,
        stands,
        subst (λ i. get i s.threads ≡ some (waiting key a)) same waits,
      ) in
      inr (
        h,
        v,
        grabbed t key a v,
        ground (arith, stands, is_holding),
        take_lem t key a v (get-set_ne h t (leaving own a) s.threads apart ∙ waits)
            (ap (λ o. (or_new o).locked) (lookup-insert_self a lock s.heap)),
      )
]
