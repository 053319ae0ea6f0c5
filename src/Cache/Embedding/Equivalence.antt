-- ===== src/Cache/Embedding/Equivalence.antt =====
-- The cache answers as the embedder behind it, which it asks less.
use ecommerce_ops_agent.Base.{
  ◌+◌, ◌≡◌, ◌∙◌, refl, ap, String, List, [], ◌∷◌, map, length, All, All-map, contains,
  if◌then◌else◌, none, some, Result, ok, arith, string_eq, Option-cases, inl, inr, List-cases,
  subst, sym, true,
}
use ecommerce_ops_agent.Base.Dict.{Dict, lookup, insert, lookup-insert}
use ecommerce_ops_agent.Cache.Embedding.{
  EmbeddingCache, EmbedError, missing, counted, filled, stored, found_or_panic, is_empty, embed,
}

module _ {V : Type 0} (inner : List String → Result String (List V)) where
  -- The answers to batches, one after the other.
  pub answers : List (List String) → EmbeddingCache V → List (Result EmbedError (List V))
  answers [] c = []
  answers (texts ∷ batches) c = let r = embed inner texts c in r.1 ∷ answers batches r.0

module _ {V : Type 0} (f : String → V) where
  -- What is cached is the vector of its text.
  unfoldable pub Consistent : Dict String V → Type 0
  Consistent store = (t : String) (v : V) → lookup t store ≡ some v → v ≡ f t

  filled_lem :
      (store : Dict String V) (ts : List String)
      → Consistent store
      → filled store ts (map f (missing store ts)) ≡ some (map f ts)
  unfolding filled missing Consistent
  filled_lem store [] c = refl
  filled_lem store (t ∷ ts) c = elim (Option-cases (lookup t store)) [
    | inl e ↦ ground (arith, e, filled_lem store ts c)
    | inr (v, e) ↦ ground (arith, e, filled_lem store ts c, c t v e)
  ]

  insert-Consistent :
      (t : String) (store : Dict String V) → Consistent store → Consistent (insert t (f t) store)
  unfolding Consistent
  insert-Consistent t store c s v here = grind (arith, here, c s v, lookup-insert s t (f t) store)

  stored-Consistent :
      (ts : List String) (store : Dict String V)
      → Consistent store
      → Consistent (stored ts (map f ts) store)
  unfolding stored
  stored-Consistent [] store c = c
  stored-Consistent (t ∷ ts) store c =
      stored-Consistent ts (insert t (f t) store) (insert-Consistent t store c)

  stored_lem :
      (t : String) (ts : List String) (store : Dict String V)
      → lookup t (stored ts (map f ts) store)
        ≡ (if contains ts t then some (f t) else lookup t store)
  unfolding stored
  stored_lem t [] store = refl
  stored_lem t (s ∷ ts) store =
      ground (arith, stored_lem t ts (insert s (f s) store), lookup-insert t s (f s) store)

  -- A text of the batch is in the cache or among the missing.
  Covers : Dict String V → List String → String → Type 0
  Covers store ms t = lookup t store ≡ none → contains ms t ≡ true

  Covers-All : (store : Dict String V) (ts : List String) → All (Covers store (missing store ts)) ts
  unfolding missing Covers
  Covers-All store [] = tt
  Covers-All store (t ∷ ts) = (
    (λ none_found. ground (arith, none_found)),
    All-map {P = Covers store (missing store ts)} (λ s covers free. ground (arith, covers free)) ts
        (Covers-All store ts),
  )

  covered_lem :
      (store : Dict String V) (ms ts : List String)
      → All (Covers store ms) ts
      → missing (stored ms (map f ms) store) ts ≡ []
  unfolding missing Covers
  covered_lem store ms [] c = refl
  covered_lem store ms (t ∷ ts) (here, there) =
      grind (arith, here, stored_lem t ms store, covered_lem store ms ts there)

  all_hits :
      (texts : List String) (other : List String → Result String (List V)) (d : EmbeddingCache V)
      → Consistent d.store
      → missing d.store texts ≡ []
      → let r = embed other texts d in
        (r.1 ≡ ok (map f texts)) × (r.0.miss ≡ d.miss) × (r.0.hits ≡ d.hits + length texts)
  unfolding embed counted is_empty found_or_panic
  all_hits texts other d right e =
      (ground (arith, e, filled_lem d.store texts right), ground (arith, e), ground (arith, e))

  module _ (inner : List String → Result String (List V))
      (pointwise : (ts : List String) → inner ts ≡ ok (map f ts)) where
    -- One batch: the vectors of its texts, and a cache that is right again.
    embed_lem :
        (texts : List String) (c : EmbeddingCache V)
        → Consistent c.store
        → ((embed inner texts c).1 ≡ ok (map f texts))
          × ((embed inner texts c).0.store
              ≡ stored (missing c.store texts) (map f (missing c.store texts)) c.store)
    unfolding embed counted is_empty found_or_panic stored
    embed_lem texts c right = elim (List-cases (missing c.store texts)) [
      | inl e ↦ ground (arith, e, filled_lem c.store texts right)
      | inr (m, ms, e) ↦ ground (arith, e, filled_lem c.store texts right, pointwise (m ∷ ms))
    ]

    -- Over any sequence of batches, from a cache that is right, the cache answers each with the very
    -- vectors of the embedder behind it. For an embedder that gives every text its own vector,
    -- whatever the batch.
    pub answers_lem :
        (batches : List (List String)) (c : EmbeddingCache V)
        → Consistent c.store
        → answers inner batches c ≡ map (λ texts. ok (map f texts)) batches
    unfolding answers
    answers_lem [] c right = refl
    answers_lem (texts ∷ batches) c right =
        let (same, after) = embed_lem texts c right in
        ground (
          arith,
          same,
          answers_lem batches (embed inner texts c).0 (
              subst Consistent (sym after)
                (stored-Consistent (missing c.store texts) c.store right)),
        )

    -- Behind an embedder that gives every text its own vector, and with a cache that holds no other
    -- vectors: a batch that the cache has answered costs nothing the second time. Every text of it is a
    -- hit, the count of misses stays, and the answer is the same, whatever embedder stands behind it
    -- then.
    pub embed_again :
        (texts : List String) (other : List String → Result String (List V)) (c : EmbeddingCache V)
        → Consistent c.store
        → let d = (embed inner texts c).0 in
          let r = embed other texts d in
          (r.1 ≡ ok (map f texts)) × (r.0.miss ≡ d.miss) × (r.0.hits ≡ d.hits + length texts)
    embed_again texts other c right =
        let d = (embed inner texts c).0 in
        let misses = missing c.store texts in
        let (same, after) = embed_lem texts c right in
        all_hits texts other d
          (subst Consistent (sym after) (stored-Consistent misses c.store right))
          (ap (λ store. missing store texts) after
            ∙ covered_lem c.store misses texts (Covers-All c.store texts))
