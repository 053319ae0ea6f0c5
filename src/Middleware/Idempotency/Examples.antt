-- ===== src/Middleware/Idempotency/Examples.antt =====
-- A handler that counts its calls, and payloads that are the responses themselves.
use text.Mathlib.TextEquality.{eq_iff}
use ecommerce_ops_agent.Base.{
  ℕ, ◌+◌, ◌≡◌, ◌≢◌, refl, String, List, [], ◌∷◌, All, none, some, arith, string_eq, nat_eq, inl,
}
use ecommerce_ops_agent.Base.Dict.{Dict, lookup, insert}
use ecommerce_ops_agent.Cache.Idempotent.{MemoryIdemStore, new_memory_idem_store, get}
use ecommerce_ops_agent.Middleware.Idempotency.{
  Request, Response, CachedResponse, Written, write, write_header, executed, replayed, refused,
  Library, memory_store, answer, serve, read_and_serve, execute, hash_and_restore_request_body,
  scoped_idempotency_key, add_header,
}
use ecommerce_ops_agent.Middleware.Idempotency.Kept.{IsKeyed, IsAnswered}
use ecommerce_ops_agent.Middleware.Idempotency.Once.{Call, outcomes, run, executes_once}
use ecommerce_ops_agent.Middleware.Idempotency.Replay.{serve-replays}

abbrev lib : Library CachedResponse
lib = record {
  text_digest = λ s. s;
  digest = λ _. "h";
  marshal = λ c. some c;
  unmarshal = λ c. some c;
}

abbrev next : Request → ℕ → ℕ × Dict String (List String) × List Written
next r n = (n + 1, r.outer_header, write_header 201 ∷ write (7 ∷ []) ∷ [])

abbrev with_id : String → Dict String (List String)
with_id id = ("X-Request-Id", id ∷ []) ∷ []

abbrev order : Request
order = record {
  method = "POST";
  path = "/orders";
  raw_query = "";
  user_id = "u1";
  workspace_id = "w1";
  idempotency_key = "k1";
  body = none;
  outer_header = with_id "r1";
}

-- The same request again, which the middlewares before give another identifier.
abbrev reorder : Request
reorder = record order { outer_header = with_id "r2" }

abbrev created : Response
created = record { status = 201; header = with_id "r1"; body = 7 ∷ [] }

abbrev empty : MemoryIdemStore CachedResponse
empty = new_memory_idem_store

abbrev repeated : List Call
repeated = record { now = 30; later = 31; request = reorder } ∷ []

ran : (serve lib memory_store next 10 20 order 0 empty).1 ≡ executed created
unfolding serve read_and_serve execute answer memory_store get new_memory_idem_store string_eq
    hash_and_restore_request_body lookup
ran = refl

executes_once_example :
    let w = (serve lib memory_store next 10 20 order 0 empty).0 in
    All
      (λ (again, o).
        IsKeyed again
        → scoped_idempotency_key lib again ≡ scoped_idempotency_key lib order
        → IsAnswered o)
      (outcomes lib next repeated w.0 w.1)
executes_once_example =
    executes_once lib next (λ c. (c, refl, refl)) 10 20 order created repeated 0 empty ran refl
      (omega arith, tt)

h_named : ◌≢◌ {A = String} "h" ""
h_named = ground (arith, eq_iff "h" "")

k_named : ◌≢◌ {A = String} "k1" ""
k_named = ground (arith, eq_iff "k1" "")

-- The replay carries the identifiers of both requests.
serve-replays_example :
    let w = (serve lib memory_store next 10 20 order 0 empty).0 in
    let (b, t) = run lib next repeated w.0 w.1 in
    (lib.digest [] ≡ "h"
      → serve lib memory_store next 40 41 reorder b t ≡ (
        (b, t),
        replayed (record {
          status = 201;
          header =
              insert "X-Idempotent-Replay" ("true" ∷ []) (add_header (with_id "r1") (with_id "r2"));
          body = 7 ∷ [];
        }),
      ))
    × (lib.digest [] ≢ "h"
        → serve lib memory_store next 40 41 reorder b t
          ≡ ((b, t), refused 409 "Idempotency-Key was already used with a different request body"))
unfolding hash_and_restore_request_body scoped_idempotency_key
serve-replays_example =
    serve-replays lib next (λ c. (c, refl, refl)) 10 20 40 41 order reorder "h" "h" created repeated
      0 empty ran refl refl h_named (omega arith, tt) (k_named, inl refl) (omega arith) refl refl
      (omega arith)

both_identifiers :
    add_header (with_id "r1") (with_id "r2") ≡ ("X-Request-Id", "r2" ∷ "r1" ∷ []) ∷ []
unfolding add_header lookup insert string_eq
both_identifiers = refl
