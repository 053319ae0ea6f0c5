-- ===== src/KnowledgeBase/Store/Examples.antt =====
-- One knowledge base with one document.
use text.Mathlib.TextEquality.{eq_iff}
use ecommerce_ops_agent.Base.{
  ◌≡◌, ◌≢◌, ◌↔◌, refl, String, [], ◌∷◌, true, All, some, none, ok, arith, string_eq,
}
use ecommerce_ops_agent.Base.Dict.{lookup, values}
use ecommerce_ops_agent.KnowledgeBase.Record.{KnowledgeBase, KbDocument}
use ecommerce_ops_agent.KnowledgeBase.Store.{Store, activate_kb_if_ready}
use ecommerce_ops_agent.KnowledgeBase.Store.Activation.{IsDone, activate-IsDone}

abbrev pub base : KnowledgeBase
base = record {
  id = "k1";
  workspace_id = "w1";
  name = "policies";
  chunking_config = "{}";
  embedding_model = "e1";
  status = "indexing";
  created_by = "u1";
  created_at = 1;
  updated_at = 1;
}

abbrev pub doc : KbDocument
doc = record {
  id = "d1";
  kb_id = "k1";
  source_type = "connector";
  source_uri = "refunds.md";
  hash = "h1";
  embedding_identity = "e1";
  classification = "internal";
  status = "pending";
  ingested_at = none;
  created_at = 1;
}

abbrev processed : KbDocument
processed = record doc { status = "processed" }

abbrev pub store_with : KbDocument → Store
store_with d = record {
  kbs = ("k1", base) ∷ [];
  documents = ("d1", d) ∷ [];
  ingest_jobs = [];
  connectors = [];
}

activate-IsDone_example :
    let r = activate_kb_if_ready 7 "k1" "e1" (store_with processed) in
    ((r.1 ≡ ok true) ↔ (
      (base.embedding_model ≡ "e1")
      × All (IsDone "k1" "e1") (values (store_with processed).documents)))
    × (r.1 ≡ ok true
        → lookup "k1" r.0.kbs ≡ some (record base { status = "active"; updated_at = 7 }))
    × (r.1 ≢ ok true → r.0 ≡ store_with processed)
unfolding lookup string_eq
activate-IsDone_example = activate-IsDone 7 "k1" "e1" (store_with processed) base refl

e1_differs : ◌≢◌ {A = String} "e1" "e2"
e1_differs = ground (arith, eq_iff "e1" "e2")
