-- ===== src/KnowledgeBase/Sync/Examples.antt =====
-- A connector that lists one document, which is indexed already.
use ecommerce_ops_agent.Base.{
  ℕ, ◌≡◌, refl, List, [], ◌∷◌, none, some, inr, ok, err, string_eq, ◌==◌,
}
use ecommerce_ops_agent.Base.Dict.{lookup}
use ecommerce_ops_agent.KnowledgeBase.Store.{Store, get_document, list_documents}
use ecommerce_ops_agent.KnowledgeBase.Store.Examples.{base, doc}
use ecommerce_ops_agent.KnowledgeBase.Ingest.{State, Chunk}
use ecommerce_ops_agent.KnowledgeBase.Ingest.Examples.{searcher}
use ecommerce_ops_agent.KnowledgeBase.Sync.{
  Hashing, Connector, DocumentMeta, sync_connector, chunking_config, is_unchanged, doc_id,
}
use ecommerce_ops_agent.KnowledgeBase.Sync.Skips.{IsSkipped, IsComplete, undisturbed, sync-skips}

abbrev pub hashing : Hashing
hashing = record { sha256_hex = λ _. "h1"; sha256_half_hex = λ _. "d1" }

abbrev pub meta : DocumentMeta
meta = record { id = "refunds.md"; title = "Refunds"; updated_at = 1; hash = "x" }

abbrev pub conn : Connector
conn = record {
  metas = ok (meta ∷ []);
  owns_source = some (λ uri. uri == "refunds.md");
  fetch_document = λ _. err "unreachable";
}

abbrev pub indexed_store : Store
indexed_store = record {
  kbs = ("k1", record base { chunking_config = chunking_config; status = "active" }) ∷ [];
  documents = ("d1", record doc { status = "processed" }) ∷ [];
  ingest_jobs = [];
  connectors = [];
}

abbrev pub indexed : State (List (Chunk ℕ))
indexed = record { store = indexed_store; index = [] }

sync-skips_example :
    let r =
      sync_connector searcher hashing undisturbed conn none
        (λ _. none)
        (λ _. "j1")
        7
        "k1"
        indexed in
    (r.result ≡ record { listed = 1; ingested = 0; skipped = 1; deleted = 0 })
    × (r.stopped ≡ none)
    × (r.world.store.documents ≡ indexed_store.documents)
    × (r.world.index ≡ [])
unfolding IsSkipped IsComplete lookup string_eq is_unchanged doc_id get_document list_documents
sync-skips_example =
    sync-skips searcher hashing conn none (λ _. none) (λ _. "j1") 7 "k1" (meta ∷ []) indexed
      (record base { chunking_config = chunking_config; status = "active" }) refl refl refl refl
      (inr (inr refl), tt) ((refl, refl), tt)
