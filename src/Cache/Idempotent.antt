-- ===== src/Cache/Idempotent.antt =====
-- `MemoryIdemStore` of internal/runtime/cache/cache.go, and the interface it implements. A value is of
-- type `P`; a method reads the clock once. A missing expiry is Go's zero time.
pub mod Expiry
use ecommerce_ops_agent.Base.{
  ℕ, ◌+◌, String, [], Bool, true, false, ◌&&◌, ◌||◌, not, Option, none, some, Result, ok, err,
  if◌then◌else◌, string_eq, ltb,
}
use ecommerce_ops_agent.Base.Int.{ℤ, pos, negsuc}
use ecommerce_ops_agent.Base.Dict.{Dict, lookup, insert, erase}

pub record IdemEntry (P : Type 0) : Type 0 where
  pub value : P
  pub expires_at : Option ℕ

pub record MemoryIdemStore (P : Type 0) : Type 0 where
  pub m : Dict String (IdemEntry P)

unfoldable pub new_memory_idem_store : {P : Type 0} → MemoryIdemStore P
new_memory_idem_store = record { m = [] }

-- `time.Now().After(entry.expiresAt)`, of an entry that expires.
abbrev pub is_expired : ℕ → Option ℕ → Bool
is_expired now none = false
is_expired now (some at) = ltb at now

-- `entry.expiresAt.IsZero() || time.Now().Before(entry.expiresAt)`.
abbrev pub is_alive : ℕ → Option ℕ → Bool
is_alive now none = true
is_alive now (some at) = ltb now at

abbrev pub expiry : ℕ → ℤ → Option ℕ
expiry now (negsuc _) = none
expiry now (pos ttl) = if ltb 0 ttl then some (now + ttl) else none

module _ {P : Type 0} where
  unfoldable pub get : ℕ → String → MemoryIdemStore P → MemoryIdemStore P × Option P
  get now key s = elim (lookup key s.m) [
    | none ↦ (s, none)
    | some entry ↦
        if is_expired now entry.expires_at
        then (record { m = erase key s.m }, none)
        else (s, some entry.value)
  ]

  unfoldable pub set : ℕ → String → P → ℤ → MemoryIdemStore P → MemoryIdemStore P
  set now key val ttl s = record {
    m = insert key (record { value = val; expires_at = expiry now ttl }) s.m;
  }

  unfoldable pub set_if_absent : ℕ → String → P → ℤ → MemoryIdemStore P → MemoryIdemStore P × Bool
  unfolding set
  set_if_absent now key val ttl s = elim (lookup key s.m) [
    | none ↦ (set now key val ttl s, true)
    | some entry ↦
        if is_alive now entry.expires_at then (s, false) else (set now key val ttl s, true)
  ]

  unfoldable pub delete : String → MemoryIdemStore P → MemoryIdemStore P
  delete key s = record { m = erase key s.m }
