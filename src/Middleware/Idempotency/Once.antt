-- ===== src/Middleware/Idempotency/Once.antt =====
-- A key is served by its handler with success once a day.
use Prim.Native.String.{len}
use ecommerce_ops_agent.Base.{
  ℕ, ◌+◌, ◌≡◌, ◌≤◌, string_eq, ap, ◌∙◌, String, List, [], ◌∷◌, All, some, ok, true, arith,
  Option-cases, Result-cases, Bool-cases, inl, inr, ltb, sym, subst,
}
use ecommerce_ops_agent.Base.Dict.{Dict, lookup-insert_self}
use ecommerce_ops_agent.Cache.Idempotent.{MemoryIdemStore, IdemEntry, get, set}
use ecommerce_ops_agent.Middleware.Idempotency.{
  Request, Response, CachedResponse, Written, Outcome, executed, Library, memory_store, day,
  is_success, hash_and_restore_request_body, scoped_idempotency_key, replay_response, answer,
  persist, execute, read_and_serve, serve, is_plain,
}
use ecommerce_ops_agent.Middleware.Idempotency.Kept.{IsKeyed, IsAnswered, Cached, serve-Served}

-- What is recorded of a response.
abbrev pub recording : Response → String → CachedResponse
recording rec request_hash = record {
  status = rec.status;
  header = rec.header;
  body = rec.body;
  request_hash = request_hash;
}

-- A request, the time it is served at, and the time its handler is done.
pub record Call : Type 0 where
  pub now : ℕ
  pub later : ℕ
  pub request : Request

module _ {P A : Type 0} (lib : Library P)
    (next : Request → A → A × Dict String (List String) × List Written) where
  -- The outcomes of a run of requests, each with its request.
  pub outcomes : List Call → A → MemoryIdemStore P → List (Request × Outcome)
  outcomes [] a s = []
  outcomes (c ∷ cs) a s =
      let (w, o) = serve lib memory_store next c.now c.later c.request a s in
      (c.request, o) ∷ outcomes cs w.0 w.1

  -- The application and the store after a run of requests.
  pub run : List Call → A → MemoryIdemStore P → A × MemoryIdemStore P
  run [] a s = (a, s)
  run (c ∷ cs) a s =
      let (w, o) = serve lib memory_store next c.now c.later c.request a s in run cs w.0 w.1

  pub run-Cached :
      (key : String) (until : ℕ) (value : P) (cached : CachedResponse) (calls : List Call) (a : A)
      (s : MemoryIdemStore P)
      → Cached lib key until value cached s
      → All (λ (c : Call). c.now ≤ until) calls
      → Cached lib key until value cached (run calls a s).1
  unfolding run
  run-Cached key until value cached [] a s c soon = c
  run-Cached key until value cached (call ∷ calls) a s c (here, there) =
      let (w, o) = serve lib memory_store next call.now call.later call.request a s in
      run-Cached key until value cached calls w.0 w.1
        (serve-Served lib next key until value cached call.now call.later call.request a s c here).0
        there

  outcomes-IsAnswered :
      (key : String) (until : ℕ) (value : P) (cached : CachedResponse) (calls : List Call) (a : A)
      (s : MemoryIdemStore P)
      → Cached lib key until value cached s
      → All (λ (c : Call). c.now ≤ until) calls
      → All
          (λ (r, o). IsKeyed r → scoped_idempotency_key lib r ≡ key → IsAnswered o)
          (outcomes calls a s)
  unfolding outcomes
  outcomes-IsAnswered key until value cached [] a s c soon = tt
  outcomes-IsAnswered key until value cached (call ∷ calls) a s c (here, there) =
      let (w, o) = serve lib memory_store next call.now call.later call.request a s in
      let (kept, answered) =
        serve-Served lib next key until value cached call.now call.later call.request a s c here in
      (answered, outcomes-IsAnswered key until value cached calls w.0 w.1 kept there)

  replay-unexecuted :
      (outer : Dict String (List String)) (payload : P) (request_hash : String) (rec : Response)
      → replay_response lib outer payload request_hash ≡ some (executed rec)
      → ⊥
  unfolding replay_response
  replay-unexecuted outer payload request_hash rec f = ground (arith, f)

  -- What an executed request leaves: a payload that reads back as its response.
  abbrev Left : String → ℕ → Response → String → MemoryIdemStore P → Type 0
  Left key later rec request_hash s =
      (value : P) × Cached lib key (later + day) value (recording rec request_hash) s

  module _
      (round_trip : (c : CachedResponse)
        → (p : P) × (lib.marshal c ≡ some p) × (lib.unmarshal p ≡ some c)) where
    persist-Left :
        (later : ℕ) (key request_hash : String) (rec : Response) (s : MemoryIdemStore P)
        → is_success rec.status ≡ true
        → Left key later rec request_hash
            (persist lib memory_store next later key request_hash rec s)
    unfolding persist memory_store set Cached
    persist-Left later key request_hash rec s success =
        let (p, written, read) = round_trip (recording rec request_hash) in
        let entry : IdemEntry P = record { value = p; expires_at = some (later + day) } in
        (p, (ground (arith, success, written, lookup-insert_self key entry s.m), read, success))

    execute-Left :
        (later : ℕ) (key request_hash : String) (r : Request) (rec : Response) (a : A)
        (s : MemoryIdemStore P)
        → (execute lib memory_store next later key request_hash r a s).1 ≡ executed rec
        → is_success rec.status ≡ true
        → Left key later rec request_hash
            (execute lib memory_store next later key request_hash r a s).0.1
    unfolding execute
    execute-Left later key request_hash r rec a s ran success =
        let same : (answer lib memory_store next r a).1 ≡ rec = ground (arith, ran) in
        subst
          (λ q.
            Left key later rec request_hash
              (persist lib memory_store next later key request_hash q s))
          (sym same) (persist-Left later key request_hash rec s success)

    read-Left :
        (now later : ℕ) (key request_hash : String) (r : Request) (rec : Response) (a : A)
        (s : MemoryIdemStore P)
        → (read_and_serve lib memory_store next now later key request_hash r a s).1 ≡ executed rec
        → is_success rec.status ≡ true
        → Left key later rec request_hash
            (read_and_serve lib memory_store next now later key request_hash r a s).0.1
    unfolding read_and_serve memory_store
    read-Left now later key request_hash r rec a s ran success =
        let t = (get now key s).0 in
        elim (Option-cases (get now key s).1) [
          | inl e ↦
              rw (read_and_serve, e)
                (execute-Left later key request_hash r rec a t (rw (read_and_serve, e) at ran)
                  success)
          | inr (payload, e) ↦
              elim (Option-cases (replay_response lib r.outer_header payload request_hash)) [
                | inl f ↦
                    rw (read_and_serve, e, f)
                      (execute-Left later key request_hash r rec a t
                        (rw (read_and_serve, e, f) at ran) success)
                | inr (o, f) ↦ absurd (
                    replay-unexecuted r.outer_header payload request_hash rec
                      (f ∙ ap (λ x. some x) (rw (read_and_serve, e, f) at ran)))
              ]
        ]

    pub executed-Left :
        (now later : ℕ) (r : Request) (rec : Response) (a : A) (s : MemoryIdemStore P)
        → (serve lib memory_store next now later r a s).1 ≡ executed rec
        → is_success rec.status ≡ true
        → (hash : String) × (hash_and_restore_request_body lib r ≡ ok hash)
          × Left
              (scoped_idempotency_key lib r)
              later
              rec
              hash
              (serve lib memory_store next now later r a s).0.1
    unfolding serve memory_store
    executed-Left now later r rec a s ran success = elim (Bool-cases (is_plain r)) [
      | inl e ↦ absurd (ground (arith, e, ran))
      | inr e ↦ elim (Bool-cases (ltb 256 (len r.idempotency_key))) [
        | inl l ↦ absurd (ground (arith, e, l, ran))
        | inr l ↦ elim (Result-cases (hash_and_restore_request_body lib r)) [
          | inl (_, h) ↦ absurd (ground (arith, e, l, h, ran))
          | inr (hash, h) ↦ (
            hash,
            h,
            rw (serve, e, l, h)
                (read-Left now later (scoped_idempotency_key lib r) hash r rec a s
                  (rw (serve, e, l, h) at ran) success),
          )
        ]
      ]
    ]

    pub executes_once :
        (now later : ℕ) (r : Request) (rec : Response) (calls : List Call) (a : A)
        (s : MemoryIdemStore P)
        → let (w, o) = serve lib memory_store next now later r a s in
          o ≡ executed rec
          → is_success rec.status ≡ true
          → All (λ (c : Call). c.now ≤ later + day) calls
          → All
              (λ (again, o).
                IsKeyed again
                → scoped_idempotency_key lib again ≡ scoped_idempotency_key lib r
                → IsAnswered o)
              (outcomes calls w.0 w.1)
    executes_once now later r rec calls a s ran success soon =
        let (w, o) = serve lib memory_store next now later r a s in
        let (hash, _, (value, kept)) = executed-Left now later r rec a s ran success in
        outcomes-IsAnswered (scoped_idempotency_key lib r) (later + day) value (recording rec hash)
          calls w.0 w.1 kept soon
