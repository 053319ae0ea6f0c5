-- ===== src/KnowledgeBase/Service/Examples.antt =====
-- A knowledge base is created and another is synchronised, which is then searched.
use ecommerce_ops_agent.Base.{ℕ, ◌≡◌, refl, List, [], ◌∷◌, none, arith, string_eq}
use ecommerce_ops_agent.Base.Dict.{lookup, insert}
use ecommerce_ops_agent.KnowledgeBase.Store.Examples.{doc}
use ecommerce_ops_agent.KnowledgeBase.Store.{any_blocks}
use ecommerce_ops_agent.KnowledgeBase.Ingest.Invariants.{IndexKeeps}
use ecommerce_ops_agent.KnowledgeBase.Store.Spaces.{Uniform}
use ecommerce_ops_agent.KnowledgeBase.Ingest.{Chunk}
use ecommerce_ops_agent.KnowledgeBase.Ingest.Examples.{searcher}
use ecommerce_ops_agent.KnowledgeBase.Sync.{sync_connector}
use ecommerce_ops_agent.KnowledgeBase.Sync.Examples.{hashing, conn, indexed, indexed_store}
use ecommerce_ops_agent.KnowledgeBase.Sync.Skips.{undisturbed}
use ecommerce_ops_agent.KnowledgeBase.Service.{
  CreateKbRequest, ensure_searchable, create_knowledge_base, new_kb,
}
use ecommerce_ops_agent.KnowledgeBase.Service.History.{
  Call, create, sync, run, apply, Sound, AllSound, searchable_one_space,
}

abbrev req : CreateKbRequest
req = record { workspace_id = "w1"; name = "shipping"; created_by = "u1" }

abbrev calls : List (Call ℕ (List (Chunk ℕ)))
calls =
    create 5 "k2" req searcher
    ∷ sync searcher hashing undisturbed conn none (λ _. none) (λ _. "j1") 7 "k1"
    ∷ []

uniform : Uniform indexed_store
unfolding Uniform lookup
uniform id d here = ground (arith, here)

calls_sound : AllSound calls indexed
unfolding IndexKeeps AllSound Sound lookup string_eq
calls_sound = (refl, ((λ f versioned. ground (arith, versioned), λ moment v h. h), tt))

searchable_one_space_example : doc.embedding_identity ≡ "e1"
unfolding run apply ensure_searchable sync_connector create_knowledge_base new_kb any_blocks lookup
    insert string_eq
searchable_one_space_example =
    searchable_one_space calls indexed "k1" "e1" "d1" (record doc { status = "processed" })
      calls_sound uniform refl refl refl
