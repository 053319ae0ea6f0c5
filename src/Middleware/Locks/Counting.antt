-- ===== src/Middleware/Locks/Counting.antt =====
-- What the locks of `keyedLocks` say of the threads, and how a move of one thread keeps it true.
use ecommerce_ops_agent.Base.{
  ℕ, ◌+◌, ◌≡◌, ◌≢◌, refl, String, Option, none, some, if◌then◌else◌, ◌==◌, string_eq, nat_eq, arith,
  Option-cases, inl, inr, subst, sym,
}
use ecommerce_ops_agent.Base.Dict.{lookup, insert, lookup-insert}
use ecommerce_ops_agent.Middleware.Locks.Slots.{get, set, sum, get-set_self, get-set_ne, sum-set}
use ecommerce_ops_agent.Middleware.Locks.{
  KeyedLock, Phase, idle, waiting, holding, leaving, State, at_address, write, move, entered,
  or_new,
}

-- The key and the address of the lock that a thread is counted in at.
abbrev pub place : Phase → Option (String × ℕ)
place idle = none
place (waiting key a) = some (key, a)
place (holding key a) = some (key, a)
place (leaving key a) = some (key, a)

abbrev pub counts : ℕ → Phase → ℕ
counts a idle = 0
counts a (waiting _ b) = if b == a then 1 else 0
counts a (holding _ b) = if b == a then 1 else 0
counts a (leaving _ b) = if b == a then 1 else 0

abbrev pub holds : ℕ → Phase → ℕ
holds a (holding _ b) = if b == a then 1 else 0
holds a _ = 0

abbrev pub refs_of : KeyedLock → ℕ
refs_of lock = lock.refs

abbrev pub locked_of : KeyedLock → ℕ
locked_of lock = if lock.locked then 1 else 0

-- What every lock says of itself is the sum of a measure over the threads.
unfoldable pub Agrees : (KeyedLock → ℕ) → (ℕ → Phase → ℕ) → State → Type 0
Agrees r f s = (a : ℕ) → r (at_address a s) ≡ sum (f a) s.threads

-- A thread that is counted in stands at the lock of its key in the map.
unfoldable pub Placed : State → Type 0
Placed s =
    (t : ℕ) (p : Phase) (key : String) (a : ℕ)
    → get t s.threads ≡ some p
    → place p ≡ some (key, a)
    → lookup key s.locks ≡ some a

unfoldable pub Counted : State → Type 0
Counted s = Placed s × Agrees refs_of counts s × Agrees locked_of holds s

pub moved-Agrees :
    (r : KeyedLock → ℕ) (f : ℕ → Phase → ℕ) (t a : ℕ) (old v : Phase) (lock : KeyedLock) (s : State)
    → get t s.threads ≡ some old
    → r lock + f a old ≡ r (at_address a s) + f a v
    → ((b : ℕ) → b ≢ a → f b old ≡ f b v)
    → Agrees r f s
    → Agrees r f (move t v (write a lock s))
unfolding Agrees
moved-Agrees r f t a old v lock s stands balance elsewhere agrees b = elim (nat_eq.dec b a) [
  | yes same ↦
      subst (λ c. r (or_new (lookup c (insert a lock s.heap))) ≡ sum (f c) (set t v s.threads))
        (sym same)
        (ground (
          arith,
          lookup-insert a a lock s.heap,
          balance,
          agrees a,
          sum-set (f a) t old v s.threads stands,
        ))
  | no other ↦ ground (
    arith,
    other,
    lookup-insert b a lock s.heap,
    elsewhere b other,
    agrees b,
    sum-set (f b) t old v s.threads stands,
  )
]

-- A thread moves to a place that the map knows, and the map keeps the places of the others.
pub moved-Placed :
    (t : ℕ) (old v : Phase) (s w : State)
    → get t s.threads ≡ some old
    → w.threads ≡ set t v s.threads
    → ((key : String) (a : ℕ) → place v ≡ some (key, a) → lookup key w.locks ≡ some a)
    → ((u : ℕ) (p : Phase) (key : String) (a : ℕ)
        → u ≢ t
        → get u s.threads ≡ some p
        → place p ≡ some (key, a)
        → lookup key w.locks ≡ some a)
    → Placed w
unfolding Placed
moved-Placed t old v s w stands threads own others u p key a standing at = elim (nat_eq.dec u t) [
  | yes same ↦
      own key a (ground (arith, same, standing, at, threads, get-set_self t old v s.threads stands))
  | no other ↦
      others u p key a other (ground (arith, standing, threads, get-set_ne t u v s.threads other))
        at
]

pub entered-Counted :
    (t : ℕ) (key : String) (s : State)
    → get t s.threads ≡ some idle
    → Counted s
    → Counted (entered t key s)
unfolding Counted Placed Agrees
entered-Counted t key s stands (placed, refs, locks) = elim (Option-cases (lookup key s.locks)) [
  | inr (a, e) ↦
      let lock : KeyedLock = record (at_address a s) { refs = (at_address a s).refs + 1 } in
      let counted : Counted (move t (waiting key a) (write a lock s)) = (
        moved-Placed t idle (waiting key a) s (move t (waiting key a) (write a lock s)) stands refl
            (λ k b at. ground (arith, e, at)) (λ u p k b _ standing at. placed u p k b standing at),
        moved-Agrees refs_of counts t a idle (waiting key a) lock s stands (ground arith)
            (λ b other. ground (arith, other)) refs,
        moved-Agrees locked_of holds t a idle (waiting key a) lock s stands refl (λ b _. refl)
            locks,
      ) in
      let same : move t (waiting key a) (write a lock s) ≡ entered t key s = ground (arith, e) in
      subst Counted same counted
  | inl e ↦
      let a = s.next in
      let v : State = record s { locks = insert key a s.locks; next = a + 1 } in
      let lock : KeyedLock = record (at_address a s) { refs = (at_address a s).refs + 1 } in
      let counted : Counted (move t (waiting key a) (write a lock v)) = (
        moved-Placed t idle (waiting key a) v (move t (waiting key a) (write a lock v)) stands refl
            (λ k b at. ground (arith, at, lookup-insert key key a s.locks))
            (λ u p k b _ standing at.
              ground (arith, e, placed u p k b standing at, lookup-insert k key a s.locks)),
        moved-Agrees refs_of counts t a idle (waiting key a) lock v stands (ground arith)
            (λ b other. ground (arith, other)) refs,
        moved-Agrees locked_of holds t a idle (waiting key a) lock v stands refl (λ b _. refl)
            locks,
      ) in
      let same : move t (waiting key a) (write a lock v) ≡ entered t key s = ground (arith, e) in
      subst Counted same counted
]

-- A thread that moves on at its own lock.
pub moved-Counted :
    (t a : ℕ) (key : String) (old v : Phase) (lock : KeyedLock) (s : State)
    → get t s.threads ≡ some old
    → place old ≡ some (key, a)
    → place v ≡ some (key, a)
    → lock.refs ≡ (at_address a s).refs
    → ((b : ℕ) → counts b old ≡ counts b v)
    → locked_of lock + holds a old ≡ locked_of (at_address a s) + holds a v
    → ((b : ℕ) → b ≢ a → holds b old ≡ holds b v)
    → Counted s
    → Counted (move t v (write a lock s))
unfolding Counted Placed
moved-Counted t a key old v lock s stands was is same_refs same_count balance elsewhere
      (placed, refs, locks) =
    (
      moved-Placed t old v s (move t v (write a lock s)) stands refl
          (λ k b at. ground (arith, is, at, placed t old key a stands was))
          (λ u p k b _ standing at. placed u p k b standing at),
      moved-Agrees refs_of counts t a old v lock s stands (ground (arith, same_refs, same_count a))
          (λ b _. same_count b) refs,
      moved-Agrees locked_of holds t a old v lock s stands balance elsewhere locks,
    )
