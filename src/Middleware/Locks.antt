-- ===== src/Middleware/Locks.antt =====
-- `keyedLocks` of internal/api/middleware/idempotency.go, as the steps of threads that interleave. A lock
-- is an object on a heap, which threads and the map know by its address; an address is used once. A
-- section under the mutex of the map is one step, and so are locking and unlocking a lock.
pub mod Slots
pub mod Counting
pub mod Steps
pub mod Exclusion
pub mod Progress
pub mod Examples
use ecommerce_ops_agent.Base.{
  ℕ, zero, suc, ◌+◌, ◌-◌, String, List, [], ◌∷◌, Bool, true, false, Option, none, some,
  if◌then◌else◌, ◌==◌, string_eq, nat_eq, ◌≡◌,
}
use ecommerce_ops_agent.Base.Dict.{Dict, lookup, insert, erase}
use ecommerce_ops_agent.Middleware.Locks.Slots.{get, set}

pub record KeyedLock : Type 0 where
  pub locked : Bool
  pub refs : ℕ

-- Where a thread stands: before `acquire`, before `lock.mu.Lock()`, between that and the release, and
-- between the unlocking and the section that counts it out.
pub data Phase : Type 0 where
  idle : Phase
  waiting holding leaving : String → ℕ → Phase

pub record State : Type 0 where
  pub locks : Dict String ℕ
  pub heap : Dict ℕ KeyedLock
  pub next : ℕ
  pub threads : List Phase

pub data Action : Type 0 where
  enter : ℕ → String → Action
  take unlock leave : ℕ → Action

idles : ℕ → List Phase
idles zero = []
idles (suc n) = idle ∷ idles n

pub new_keyed_locks : ℕ → State
unfolding idles
new_keyed_locks n = record { locks = []; heap = []; next = 0; threads = idles n }

abbrev pub or_new : Option KeyedLock → KeyedLock
or_new none = record { locked = false; refs = 0 }
or_new (some lock) = lock

abbrev pub at_address : ℕ → State → KeyedLock
at_address a s = or_new (lookup a s.heap)

abbrev pub write : ℕ → KeyedLock → State → State
write a lock s = record s { heap = insert a lock s.heap }

abbrev pub move : ℕ → Phase → State → State
move t phase s = record s { threads = set t phase s.threads }

abbrev pub joined : ℕ → State → State
joined a s = let lock = at_address a s in write a (record lock { refs = lock.refs + 1 }) s

-- The first section of `acquire`: the lock of the key is found or made, and the thread counted in.
abbrev pub entered : ℕ → String → State → State
entered t key s = elim (lookup key s.locks) [
  | some a ↦ move t (waiting key a) (joined a s)
  | none ↦
      move t (waiting key s.next)
        (joined s.next (record s { locks = insert key s.next s.locks; next = s.next + 1 }))
]

-- The section of the release: the thread is counted out, and the last one takes the lock out of the map.
abbrev pub left : ℕ → String → ℕ → State → State
left t key a s =
    let lock = at_address a s in
    let refs = lock.refs - 1 in
    let v = move t idle (write a (record lock { refs = refs }) s) in
    if refs == 0 then record v { locks = erase key s.locks } else v

abbrev pub taken : ℕ → String → ℕ → State → Option State
taken t key a s =
    let lock = at_address a s in
    if lock.locked
    then none
    else some (move t (holding key a) (write a (record lock { locked = true }) s))

abbrev pub released : ℕ → String → ℕ → State → State
released t key a s = move t (leaving key a) (write a (record (at_address a s) { locked = false }) s)

-- A step of a thread, where the thread can take it.
unfoldable pub step : Action → State → Option State
step (enter t key) s = elim (get t s.threads) [ some idle ↦ some (entered t key s) | _ ↦ none ]
step (take t) s = elim (get t s.threads) [ some (waiting key a) ↦ taken t key a s | _ ↦ none ]
step (unlock t) s = elim (get t s.threads) [
  | some (holding key a) ↦ some (released t key a s)
  | _ ↦ none
]
step (leave t) s = elim (get t s.threads) [
  | some (leaving key a) ↦ some (left t key a s)
  | _ ↦ none
]

-- The states that steps lead to.
pub data Reaches (s : State) : State → Type 0 where
  start : Reaches s s
  after : {t u : State} → Reaches s t → (a : Action) → step a t ≡ some u → Reaches s u
