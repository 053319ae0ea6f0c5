-- ===== src/Middleware/Locks/Examples.antt =====
-- Two threads come for one key; the first of them takes its lock.
use ecommerce_ops_agent.Base.{ℕ, ◌≡◌, ◌≢◌, ◌⊎◌, refl, [], ◌∷◌, true, some, arith, string_eq, nat_eq}
use ecommerce_ops_agent.Base.Dict.{lookup, insert}
use ecommerce_ops_agent.Middleware.Locks.Slots.{get, set}
use ecommerce_ops_agent.Middleware.Locks.{
  holding, waiting, State, enter, take, unlock, new_keyed_locks, step, Reaches, start, after,
}
use ecommerce_ops_agent.Middleware.Locks.Exclusion.{locks_exclude}
use ecommerce_ops_agent.Middleware.Locks.Progress.{waiting_served}

abbrev contended : State
contended = record {
  locks = ("k", 0) ∷ [];
  heap = (0, record { locked = true; refs = 2 }) ∷ [];
  next = 1;
  threads = holding "k" 0 ∷ waiting "k" 0 ∷ [];
}

contended-Reaches : Reaches (new_keyed_locks 2) contended
unfolding new_keyed_locks step get set lookup insert string_eq nat_eq
contended-Reaches = after (after (after start (enter 0 "k") refl) (enter 1 "k") refl) (take 0) refl

apart : ◌≢◌ {A = ℕ} 0 1
apart p = omega (arith, p)

locks_exclude_example : get 1 contended.threads ≢ some (holding "k" 0)
unfolding get
locks_exclude_example = locks_exclude 2 0 1 "k" 0 0 contended contended-Reaches apart refl

waiting_served_example :
    ((u : State) × (step (take 1) contended ≡ some u))
    ⊎ ((h : ℕ) × (v : State) × (u : State) × (step (unlock h) contended ≡ some v)
        × (step (take 1) v ≡ some u))
unfolding get
waiting_served_example = waiting_served 2 1 "k" 0 contended contended-Reaches refl
