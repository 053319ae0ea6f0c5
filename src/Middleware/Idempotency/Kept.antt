-- ===== src/Middleware/Idempotency/Kept.antt =====
-- A successful response stays in the memory store for a day, whatever is served meanwhile.
use Prim.Native.String.{len}
use ecommerce_ops_agent.Base.{
  ℕ, ◌≡◌, ◌≢◌, ◌≤◌, String, List, some, true, false, arith, string_eq, Option-cases, Result-cases,
  Bool-cases, inl, inr, ltb, sym, subst, ◌⊎◌, ◌&&◌, not, ◌==◌, if◌then◌else◌,
}
use ecommerce_ops_agent.Base.Dict.{Dict, lookup, lookup-insert, lookup-erase}
use ecommerce_ops_agent.Cache.Idempotent.{MemoryIdemStore, IdemEntry, get, set}
use ecommerce_ops_agent.Middleware.Idempotency.{
  Request, Response, CachedResponse, Written, Outcome, passed, replayed, refused, executed, Library,
  memory_store, is_success, hash_and_restore_request_body, scoped_idempotency_key, replay_of,
  replay_response, answer, persist, execute, read_and_serve, serve, is_plain,
}

-- A POST or PUT that carries a key.
abbrev pub IsKeyed : Request → Type 0
IsKeyed r = (r.idempotency_key ≢ "") × ((r.method ≡ "POST") ⊎ (r.method ≡ "PUT"))

-- The handler does not run for the request.
pub IsAnswered : Outcome → Type 0
IsAnswered (replayed _) = Unit
IsAnswered (refused _ _) = Unit
IsAnswered (executed _) = ⊥
IsAnswered (passed _) = ⊥

-- What a request gets whose key a response is held for.
unfoldable pub held_answer : CachedResponse → String → Request → Outcome
held_answer cached request_hash r =
    if not (cached.request_hash == "") && not (cached.request_hash == request_hash)
    then refused 409 "Idempotency-Key was already used with a different request body"
    else replayed (replay_of r.outer_header cached)

pub keyed-plain : (r : Request) → IsKeyed r → is_plain r ≡ false
keyed-plain r h = ground (arith, h)

held_answer-IsAnswered :
    (cached : CachedResponse) (request_hash : String) (r : Request)
    → IsAnswered (held_answer cached request_hash r)
unfolding held_answer IsAnswered
held_answer-IsAnswered cached request_hash r = ground arith

module _ {P : Type 0} (lib : Library P) where
  -- The store holds a successful response of the key, up to a time.
  unfoldable pub Cached : String → ℕ → P → CachedResponse → MemoryIdemStore P → Type 0
  Cached key until value cached s =
      (lookup key s.m ≡ some (record { value = value; expires_at = some until }))
      × (lib.unmarshal value ≡ some cached)
      × (is_success cached.status ≡ true)

  module _ {A : Type 0} (next : Request → A → A × Dict String (List String) × List Written)
      (key : String) (until : ℕ) (value : P) (cached : CachedResponse) where
    pub read_hit :
        (now later : ℕ) (request_hash : String) (r : Request) (a : A) (s : MemoryIdemStore P)
        → Cached key until value cached s
        → now ≤ until
        → read_and_serve lib memory_store next now later key request_hash r a s
          ≡ ((a, s), held_answer cached request_hash r)
    unfolding read_and_serve memory_store get replay_response Cached held_answer
    read_hit now later request_hash r a s (held, read, success) soon =
        ground (arith, held, read, success, soon)

    get-Cached :
        (now : ℕ) (other : String) (s : MemoryIdemStore P)
        → Cached key until value cached s
        → now ≤ until
        → Cached key until value cached (get now other s).0
    unfolding get Cached
    get-Cached now other s (held, read, success) soon =
        (grind (arith, held, soon, lookup-erase key other s.m), read, success)

    persist-Cached :
        (later : ℕ) (other request_hash : String) (rec : Response) (s : MemoryIdemStore P)
        → key ≢ other
        → Cached key until value cached s
        → Cached key until value cached
            (persist lib memory_store next later other request_hash rec s)
    unfolding persist memory_store set Cached
    persist-Cached later other request_hash rec s differs (held, read, success) = (
      grind (arith, held, differs, λ (e : IdemEntry P). lookup-insert key other e s.m),
      read,
      success,
    )

    read_miss :
        (now later : ℕ) (other request_hash : String) (r : Request) (a : A) (s : MemoryIdemStore P)
        → key ≢ other
        → Cached key until value cached s
        → now ≤ until
        → Cached key until value cached
            (read_and_serve lib memory_store next now later other request_hash r a s).0.1
    unfolding read_and_serve memory_store execute
    read_miss now later other request_hash r a s differs c soon =
        let t = (get now other s).0 in
        let kept = get-Cached now other s c soon in
        let written =
          persist-Cached later other request_hash (answer lib memory_store next r a).1 t differs
            kept in
        elim (Option-cases (get now other s).1) [
          | inl e ↦ rw (read_and_serve, e) written
          | inr (payload, e) ↦
              elim (Option-cases (replay_response lib r.outer_header payload request_hash)) [
                | inl f ↦ rw (read_and_serve, e, f) written
                | inr (o, f) ↦ rw (read_and_serve, e, f) kept
              ]
        ]

    -- The response is still held, and a request of its key is answered from it.
    abbrev Served : String → (A × MemoryIdemStore P) × Outcome → Type 0
    Served other (w, o) = Cached key until value cached w.1 × (other ≡ key → IsAnswered o)

    read_both :
        (now later : ℕ) (other request_hash : String) (r : Request) (a : A) (s : MemoryIdemStore P)
        → Cached key until value cached s
        → now ≤ until
        → Served other (read_and_serve lib memory_store next now later other request_hash r a s)
    read_both now later other request_hash r a s c soon = elim (string_eq.dec key other) [
      | yes same ↦
          subst
            (λ k. Served k (read_and_serve lib memory_store next now later k request_hash r a s))
            same
            (subst (Served key) (sym (read_hit now later request_hash r a s c soon))
              (c, λ _. held_answer-IsAnswered cached request_hash r))
      | no differs ↦ (
        read_miss now later other request_hash r a s differs c soon,
        λ same. absurd (differs (sym same)),
      )
    ]

    pub serve-Served :
        (now later : ℕ) (r : Request) (a : A) (s : MemoryIdemStore P)
        → Cached key until value cached s
        → now ≤ until
        → let (w, o) = serve lib memory_store next now later r a s in
          Cached key until value cached w.1
          × (IsKeyed r → scoped_idempotency_key lib r ≡ key → IsAnswered o)
    unfolding serve IsAnswered memory_store
    serve-Served now later r a s c soon = elim (Bool-cases (is_plain r)) [
      | inl e ↦ rw (serve, e) (c, λ h _. absurd (ground (arith, e, keyed-plain r h)))
      | inr e ↦ elim (Bool-cases (ltb 256 (len r.idempotency_key))) [
        | inl l ↦ rw (serve, e, l) (c, λ _ _. tt)
        | inr l ↦ elim (Result-cases (hash_and_restore_request_body lib r)) [
          | inl (_, h) ↦ rw (serve, e, l, h) (c, λ _ _. tt)
          | inr (hash, h) ↦
              let (kept, answered) =
                read_both now later (scoped_idempotency_key lib r) hash r a s c soon in
              rw (serve, e, l, h) (kept, λ _. answered)
        ]
      ]
    ]
