-- ===== src/Cache/Idempotent/Expiry.antt =====
-- Which calls see an entry, and until when.
use ecommerce_ops_agent.Base.{
  ℕ, ◌+◌, ◌≡◌, ◌≢◌, ◌≤◌, ◌<◌, String, true, false, none, some, arith, string_eq,
}
use ecommerce_ops_agent.Base.Int.{pos}
use ecommerce_ops_agent.Base.Dict.{lookup-insert_self, lookup-insert_ne}
use ecommerce_ops_agent.Cache.Idempotent.{MemoryIdemStore, get, set, set_if_absent, IdemEntry}

module _ {P : Type 0} where
  -- A value that was set is read until its time has run out, the last moment included, and not after;
  -- a write under one key is not seen under another. For a positive time to live.
  pub get-set :
      (now later ttl : ℕ) (key other : String) (val : P) (s : MemoryIdemStore P)
      → 0 < ttl
      → other ≢ key
      → let t = set now key val (pos ttl) s in
        (later ≤ now + ttl → (get later key t).1 ≡ some val)
        × (now + ttl < later → (get later key t).1 ≡ none)
        × ((get later other t).1 ≡ (get later other s).1)
  unfolding get set
  get-set now later ttl key other val s lives differs =
      let entry : IdemEntry P = record { value = val; expires_at = some (now + ttl) } in
      (
        λ soon. ground (arith, lives, soon, lookup-insert_self key entry s.m),
        λ late. ground (arith, lives, late, lookup-insert_self key entry s.m),
        ground (arith, lives, lookup-insert_ne other key entry s.m differs),
      )

  -- A value is taken if none is alive: of two calls for a key, the second of them within the time to
  -- live of the first, at most one succeeds, whatever the store holds before.
  pub set_if_absent_once :
      (now later ttl other_ttl : ℕ) (key : String) (val other : P) (s : MemoryIdemStore P)
      → 0 < ttl
      → now ≤ later
      → later < now + ttl
      → let (t, is_first) = set_if_absent now key val (pos ttl) s in
        is_first ≡ true → set_if_absent later key other (pos other_ttl) t ≡ (t, false)
  unfolding set_if_absent set
  set_if_absent_once now later ttl other_ttl key val other s lives after soon first =
      let entry : IdemEntry P = record { value = val; expires_at = some (now + ttl) } in
      ground (arith, lives, after, soon, first, lookup-insert_self key entry s.m)
