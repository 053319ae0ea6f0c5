-- ===== src/Middleware/Idempotency.antt =====
-- internal/api/middleware/idempotency.go. Parameters: SHA-256 in hexadecimal, JSON,
-- the handler behind the middleware, and the store behind its interface. A request is
-- served alone: the lock of its key is held from the read of the store to the write.
pub mod Kept
pub mod Once
pub mod Replay
pub mod Examples
use Prim.Native.String.{len}
use ecommerce_ops_agent.Base.{
  ℕ, String, ◌<>◌, List, [], ◌∷◌, ◌++◌, Bool, true, false, ◌&&◌, ◌||◌, not, Option, none, some,
  Result, ok, err, if◌then◌else◌, ◌==◌, string_eq, ltb, leb, length,
}
use ecommerce_ops_agent.Base.Int.{ℤ, pos}
use ecommerce_ops_agent.Base.Dict.{Dict, insert, lookup}
use ecommerce_ops_agent.Cache.Idempotent.{MemoryIdemStore, get, set}

-- A body is missing, or what reading it gives. `outer_header` is what the middlewares before have put
-- on the response's writer; names of headers are in their canonical form.
pub record Request : Type 0 where
  pub method : String
  pub path : String
  pub raw_query : String
  pub user_id : String
  pub workspace_id : String
  pub idempotency_key : String
  pub body : Option (Result String (List ℕ))
  pub outer_header : Dict String (List String)

pub record Response : Type 0 where
  pub status : ℕ
  pub header : Dict String (List String)
  pub body : List ℕ

pub record CachedResponse : Type 0 where
  pub status : ℕ
  pub header : Dict String (List String)
  pub body : List ℕ
  pub request_hash : String

-- What a handler writes, in order.
pub data Written : Type 0 where
  write_header : ℕ → Written
  write : List ℕ → Written

pub data Outcome : Type 0 where
  passed executed replayed : Response → Outcome
  refused : ℕ → String → Outcome

pub record IdemStore (P S : Type 0) : Type 0 where
  pub get_value : ℕ → String → S → S × Result String (Option P)
  pub set_value : ℕ → String → P → ℤ → S → S × Result String (Unit {0})
  pub lock : Option (String → S → Result String (Unit {0}))

pub record Library (P : Type 0) : Type 0 where
  pub text_digest : String → String
  pub digest : List ℕ → String
  pub marshal : CachedResponse → Option P
  pub unmarshal : P → Option CachedResponse

abbrev found : {P S : Type 0} → S × Option P → S × Result String (Option P)
found (s, o) = (s, ok o)

unfoldable pub memory_store : {P : Type 0} → IdemStore P (MemoryIdemStore P)
unfolding get set
memory_store = record {
  get_value = λ now key s. found (get now key s);
  set_value = λ now key val ttl s. (set now key val ttl s, ok tt);
  lock = none;
}

-- 2 << 20.
abbrev pub max_idempotent_request_bytes : ℕ
max_idempotent_request_bytes = 2097152

-- 24 hours in nanoseconds.
abbrev pub day : ℕ
day = 86400000000000

-- `bodyRecorder`: the first status counts, and a write without one sets 200.
abbrev or_default : Option ℕ → ℕ
or_default none = 200
or_default (some n) = n

unfoldable pub recorded : Option ℕ → List ℕ → List Written → ℕ × List ℕ
recorded status buf [] = (or_default status, buf)
recorded none buf (write_header code ∷ rest) = recorded (some code) buf rest
recorded (some n) buf (write_header code ∷ rest) = recorded (some n) buf rest
recorded none buf (write p ∷ rest) = recorded (some 200) (buf ++ p) rest
recorded (some n) buf (write p ∷ rest) = recorded (some n) (buf ++ p) rest

abbrev pub is_success : ℕ → Bool
is_success status = leb 200 status && ltb status 300

abbrev pub is_plain : Request → Bool
is_plain r = r.idempotency_key == "" || (not (r.method == "POST") && not (r.method == "PUT"))

abbrev values_of : Option (List String) → List String
values_of none = []
values_of (some vs) = vs

-- `w.Header().Add(name, value)` for each of the values.
abbrev add_values : String → List String → Dict String (List String) → Dict String (List String)
add_values name [] header = header
add_values name (v ∷ vs) header = insert name (values_of (lookup name header) ++ v ∷ vs) header

unfoldable pub add_header :
    Dict String (List String) → Dict String (List String) → Dict String (List String)
add_header [] header = header
add_header ((name, values) ∷ rest) header = add_header rest (add_values name values header)

-- What the writer is sent for a recorded response: its headers are added to the writer's.
unfoldable pub replay_of : Dict String (List String) → CachedResponse → Response
unfolding add_header
replay_of outer cached = record {
  status = cached.status;
  header = insert "X-Idempotent-Replay" ("true" ∷ []) (add_header cached.header outer);
  body = cached.body;
}

module _ {P : Type 0} (lib : Library P) where
  unfoldable pub hash_and_restore_request_body : Request → Result String String
  hash_and_restore_request_body r = elim r.body [
    | none ↦ ok (lib.digest [])
    | some read ↦ elim read [
      | err e ↦ err e
      | ok body ↦
          if ltb max_idempotent_request_bytes (length body)
          then err "idempotent request body is too large"
          else ok (lib.digest body)
    ]
  ]

  unfoldable pub scoped_idempotency_key : Request → String
  scoped_idempotency_key r =
      let raw =
        r.user_id
        <> ("\0"
            <> (r.workspace_id
                <> ("\0"
                    <> (r.method
                        <> ("\0"
                            <> (r.path
                                <> ("\0" <> (r.raw_query <> ("\0" <> r.idempotency_key))))))))) in
      "http-idem:" <> lib.text_digest raw

  -- Nothing when the payload is no successful response.
  unfoldable pub replay_response : Dict String (List String) → P → String → Option Outcome
  unfolding replay_of
  replay_response outer payload request_hash = elim (lib.unmarshal payload) [
    | none ↦ none
    | some cached ↦
        if ltb cached.status 200 || ltb 299 cached.status
        then none
        else if not (cached.request_hash == "") && not (cached.request_hash == request_hash)
        then some (refused 409 "Idempotency-Key was already used with a different request body")
        else some (replayed (replay_of outer cached))
  ]

  -- `next` gives what the writer's header is when the handler is done, that of the middlewares before
  -- included.
  module _ {A S : Type 0} (store : IdemStore P S)
      (next : Request → A → A × Dict String (List String) × List Written) where
    unfoldable pub answer : Request → A → A × Response
    unfolding recorded
    answer r a =
        let (b, header, written) = next r a in
        let (status, body) = recorded none [] written in
        (b, record { status = status; header = header; body = body })

    -- `later` is the time after the handler has run.
    unfoldable pub persist : ℕ → String → String → Response → S → S
    persist later key request_hash rec s =
        if is_success rec.status
        then elim (lib.marshal (record {
          status = rec.status;
          header = rec.header;
          body = rec.body;
          request_hash = request_hash;
        })) [ none ↦ s | some payload ↦ (store.set_value later key payload (pos day) s).0 ]
        else s

    unfoldable pub execute : ℕ → String → String → Request → A → S → (A × S) × Outcome
    unfolding answer persist
    execute later key request_hash r a s =
        let (b, rec) = answer r a in ((b, persist later key request_hash rec s), executed rec)

    unfoldable pub read_and_serve : ℕ → ℕ → String → String → Request → A → S → (A × S) × Outcome
    unfolding execute replay_response
    read_and_serve now later key request_hash r a s =
        let (t, got) = store.get_value now key s in
        elim got [
          | err _ ↦ ((a, t), refused 503 "idempotency store unavailable")
          | ok none ↦ execute later key request_hash r a t
          | ok (some payload) ↦ elim (replay_response r.outer_header payload request_hash) [
            | some outcome ↦ ((a, t), outcome)
            | none ↦ execute later key request_hash r a t
          ]
        ]

    abbrev locked :
        Option (String → S → Result String (Unit {0})) → String → S → Result String (Unit {0})
    locked none key s = ok tt
    locked (some lock) key s = lock key s

    unfoldable pub serve : ℕ → ℕ → Request → A → S → (A × S) × Outcome
    unfolding answer hash_and_restore_request_body read_and_serve scoped_idempotency_key
    serve now later r a s =
        let (b, plain) = answer r a in
        let key = scoped_idempotency_key r in
        if is_plain r
        then ((b, s), passed plain)
        else if ltb 256 (len r.idempotency_key)
        then ((a, s), refused 400 "Idempotency-Key is too long")
        else elim (hash_and_restore_request_body r) [
          | err e ↦ ((a, s), refused 413 e)
          | ok request_hash ↦ elim (locked store.lock key s) [
            | err _ ↦ ((a, s), refused 503 "idempotency store unavailable")
            | ok _ ↦ read_and_serve now later key request_hash r a s
          ]
        ]
