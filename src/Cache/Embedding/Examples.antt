-- ===== src/Cache/Embedding/Examples.antt =====
-- An embedder of numbers.
use ecommerce_ops_agent.Base.{
  ℕ, ◌+◌, ◌≡◌, refl, String, List, [], ◌∷◌, map, Result, ok, err, string_eq, arith,
}
use ecommerce_ops_agent.Base.Dict.{lookup}
use ecommerce_ops_agent.Cache.Embedding.{new_embedding_cache, embed}
use ecommerce_ops_agent.Cache.Embedding.Equivalence.{Consistent, answers, answers_lem, embed_again}

abbrev one : String → ℕ
one _ = 1

abbrev inner : List String → Result String (List ℕ)
inner ts = ok (map one ts)

empty_Consistent : Consistent one (new_embedding_cache {V = ℕ}).store
unfolding Consistent new_embedding_cache lookup
empty_Consistent t v here = ground (arith, here)

abbrev batches : List (List String)
batches = ("a" ∷ "b" ∷ []) ∷ ("b" ∷ "c" ∷ []) ∷ []

answers_lem_example :
    answers inner batches new_embedding_cache ≡ ok (1 ∷ 1 ∷ []) ∷ ok (1 ∷ 1 ∷ []) ∷ []
answers_lem_example = answers_lem one inner (λ _. refl) batches new_embedding_cache empty_Consistent

embed_again_example :
    let d = (embed inner ("a" ∷ "b" ∷ []) new_embedding_cache).0 in
    let r = embed (λ _. err "offline") ("a" ∷ "b" ∷ []) d in
    (r.1 ≡ ok (1 ∷ 1 ∷ [])) × (r.0.miss ≡ d.miss) × (r.0.hits ≡ d.hits + 2)
embed_again_example =
    embed_again one inner (λ _. refl) ("a" ∷ "b" ∷ []) (λ _. err "offline") new_embedding_cache
      empty_Consistent
