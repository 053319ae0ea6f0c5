-- ===== src/Cache/Embedding.antt =====
-- `EmbeddingCache` of internal/runtime/cache/cache.go. The embedder behind it is a parameter, a vector
-- is of type `V`. A call is run alone: no other call writes to the cache while it works.
pub mod Equivalence
pub mod Examples
use ecommerce_ops_agent.Base.{
  ℕ, ◌+◌, ◌-◌, String, List, [], ◌∷◌, Bool, true, false, Option, none, some, Result, ok, err,
  length, if◌then◌else◌, ◌==◌, string_eq,
}
use ecommerce_ops_agent.Base.Dict.{Dict, lookup, insert}

pub record EmbeddingCache (V : Type 0) : Type 0 where
  pub store : Dict String V
  pub hits : ℕ
  pub miss : ℕ

pub data EmbedError : Type 0 where
  embedder_failed : String → EmbedError
  index_out_of_range : EmbedError

pub new_embedding_cache : {V : Type 0} → EmbeddingCache V
new_embedding_cache = record { store = []; hits = 0; miss = 0 }

is_empty : List String → Bool
is_empty [] = true
is_empty (_ ∷ _) = false

module _ {V : Type 0} where
  pub missing : Dict String V → List String → List String
  missing store [] = []
  missing store (t ∷ ts) = elim (lookup t store) [
    | some _ ↦ missing store ts
    | none ↦ t ∷ missing store ts
  ]

  pub counted : List String → EmbeddingCache V → EmbeddingCache V
  unfolding missing
  counted texts c =
      let misses = length (missing c.store texts) in
      record c { hits = c.hits + (length texts - misses); miss = c.miss + misses }

  -- `out`: a text in the cache has its vector, the others take the embedder's vectors in turn.
  pub filled : Dict String V → List String → List V → Option (List V)
  filled store [] embs = some []
  filled store (t ∷ ts) embs = elim (lookup t store) [
    | some v ↦ elim (filled store ts embs) [ none ↦ none | some out ↦ some (v ∷ out) ]
    | none ↦ elim embs [
      | [] ↦ none
      | e ∷ rest ↦ elim (filled store ts rest) [ none ↦ none | some out ↦ some (e ∷ out) ]
    ]
  ]

  -- The writes to the cache. One vector too few stops them.
  pub stored : List String → List V → Dict String V → Dict String V
  stored [] embs store = store
  stored (t ∷ ts) [] store = store
  stored (t ∷ ts) (e ∷ embs) store = stored ts embs (insert t e store)

  found_or_panic : Option (List V) → Result EmbedError (List V)
  found_or_panic none = err index_out_of_range
  found_or_panic (some out) = ok out

  pub embed :
      (List String → Result String (List V))
      → List String
      → EmbeddingCache V
      → EmbeddingCache V × Result EmbedError (List V)
  unfolding missing counted filled stored found_or_panic is_empty
  embed inner texts c =
      let misses = missing c.store texts in
      let d = counted texts c in
      if is_empty misses
      then (d, found_or_panic (filled c.store texts []))
      else elim (inner misses) [
        | err e ↦ (d, err (embedder_failed e))
        | ok embs ↦ (
          record d { store = stored misses embs c.store },
          found_or_panic (filled c.store texts embs),
        )
      ]
