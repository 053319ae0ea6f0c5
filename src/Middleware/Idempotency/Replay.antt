-- ===== src/Middleware/Idempotency/Replay.antt =====
-- A repeated request gets the first one's response, and another body under its key is a conflict.
use Prim.Native.String.{len}
use ecommerce_ops_agent.Base.{
  ℕ, ◌+◌, ◌≡◌, ◌≢◌, ◌≤◌, ◌∙◌, String, List, ◌∷◌, [], some, true, ok, arith, string_eq, All, ap,
  Result,
}
use ecommerce_ops_agent.Base.Dict.{Dict, insert}
use ecommerce_ops_agent.Cache.Idempotent.{MemoryIdemStore}
use ecommerce_ops_agent.Middleware.Idempotency.{
  Request, Response, CachedResponse, Written, executed, replayed, refused, Library, memory_store,
  day, is_success, hash_and_restore_request_body, scoped_idempotency_key, serve, read_and_serve,
  replay_of, add_header,
}
use ecommerce_ops_agent.Middleware.Idempotency.Kept.{IsKeyed, held_answer, read_hit, keyed-plain}
use ecommerce_ops_agent.Middleware.Idempotency.Once.{
  Call, run, run-Cached, executed-Left, recording,
}

module _ {P A : Type 0} (lib : Library P)
    (next : Request → A → A × Dict String (List String) × List Written) where
  ok_inj : {a b : String} {q : Result String String} → q ≡ ok a → q ≡ ok b → a ≡ b
  ok_inj g h = grind (arith, g, h)

  serve_read :
      (now later : ℕ) (r : Request) (hash : String) (a : A) (s : MemoryIdemStore P)
      → IsKeyed r
      → len r.idempotency_key ≤ 256
      → hash_and_restore_request_body lib r ≡ ok hash
      → serve lib memory_store next now later r a s
        ≡ read_and_serve lib memory_store next now later (scoped_idempotency_key lib r) hash r a s
  unfolding serve memory_store
  serve_read now later r hash a s keyed short readable =
      ground (arith, keyed-plain r keyed, short, readable)

  held_answer_cases :
      (rec : Response) (first second : String) (r : Request)
      → first ≢ ""
      → (first ≡ second
          → held_answer (recording rec first) second r
            ≡ replayed (record {
              status = rec.status;
              header =
                  insert "X-Idempotent-Replay" ("true" ∷ []) (add_header rec.header r.outer_header);
              body = rec.body;
            }))
        × (first ≢ second
            → held_answer (recording rec first) second r
              ≡ refused 409 "Idempotency-Key was already used with a different request body")
  unfolding held_answer replay_of
  held_answer_cases rec first second r named =
      (λ same. ground (arith, named, same), λ differs. ground (arith, named, differs))

  -- A request is executed with success, and any run of requests that are read within a day after it
  -- follows. Then a POST or PUT of the same scoped key that is read within that day, has a key of at
  -- most 256 bytes and a body that can be read, leaves the application and the store as they are: with
  -- a body of the first one's digest it gets the status and the body of the first response, and its
  -- headers added to those that the writer has, marked as replayed; with another body a conflict. For
  -- JSON that reads back what it wrote.
  pub serve-replays :
      (round_trip : (c : CachedResponse)
        → (p : P) × (lib.marshal c ≡ some p) × (lib.unmarshal p ≡ some c))
      (now later again after : ℕ) (r second : Request) (hash second_hash : String) (rec : Response)
      (calls : List Call) (a : A) (s : MemoryIdemStore P)
      → (serve lib memory_store next now later r a s).1 ≡ executed rec
      → is_success rec.status ≡ true
      → hash_and_restore_request_body lib r ≡ ok hash
      → hash ≢ ""
      → All (λ (c : Call). c.now ≤ later + day) calls
      → IsKeyed second
      → len second.idempotency_key ≤ 256
      → hash_and_restore_request_body lib second ≡ ok second_hash
      → scoped_idempotency_key lib second ≡ scoped_idempotency_key lib r
      → again ≤ later + day
      → let w = (serve lib memory_store next now later r a s).0 in
        let (b, t) = run lib next calls w.0 w.1 in
        (hash ≡ second_hash
          → serve lib memory_store next again after second b t ≡ (
            (b, t),
            replayed (record {
              status = rec.status;
              header =
                  insert "X-Idempotent-Replay"
                    ("true" ∷ [])
                    (add_header rec.header second.outer_header);
              body = rec.body;
            }),
          ))
        × (hash ≢ second_hash
            → serve lib memory_store next again after second b t ≡ (
              (b, t),
              refused 409 "Idempotency-Key was already used with a different request body",
            ))
  serve-replays round_trip now later again after r second hash second_hash rec calls a s ran success
        digest named soon keyed short readable same_key before =
      let w = (serve lib memory_store next now later r a s).0 in
      let (b, t) = run lib next calls w.0 w.1 in
      let key = scoped_idempotency_key lib r in
      let (first, read, (value, left)) =
        executed-Left lib next round_trip now later r rec a s ran success in
      let kept =
        run-Cached lib next key (later + day) value (recording rec first) calls w.0 w.1 left soon in
      let one : first ≡ hash = ok_inj read digest in
      let served =
        serve_read again after second second_hash b t keyed short readable
        ∙ ap (λ k. read_and_serve lib memory_store next again after k second_hash second b t)
            same_key
        ∙ read_hit lib next key (later + day) value (recording rec first) again after second_hash
            second b t kept before
        ∙ ap (λ h. ((b, t), held_answer (recording rec h) second_hash second)) one in
      let (same, differ) = held_answer_cases rec hash second_hash second named in
      (λ e. served ∙ ap (λ o. ((b, t), o)) (same e), λ e. served ∙ ap (λ o. ((b, t), o)) (differ e))
