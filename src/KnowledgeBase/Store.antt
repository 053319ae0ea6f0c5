-- ===== src/KnowledgeBase/Store.antt =====
-- `MemoryKBStore` of internal/platform/memory_store_m2.go. A method under the mutex is a function to
-- the new store and its result. The clock is read once in a call. A list that Go makes by ranging over
-- a map comes in the order of the dictionary.
pub mod Activation
pub mod Spaces
pub mod Examples
use ecommerce_ops_agent.Base.{
  ℕ, String, List, [], ◌∷◌, ◌++◌, Bool, true, false, ◌&&◌, ◌||◌, not, Option, none, some, Result,
  ok, err, if◌then◌else◌, ◌==◌, string_eq, ltb, keep,
}
use ecommerce_ops_agent.Base.Dict.{Dict, lookup, insert, erase, values, map_values}
use ecommerce_ops_agent.Base.Sort.{sort, by}
use ecommerce_ops_agent.KnowledgeBase.Record.{
  KnowledgeBase, KbDocument, KbIngestJob, ConnectorInstance,
}

pub data Error : Type 0 where
  kb_not_found : Error

pub record Store : Type 0 where
  pub kbs : Dict String KnowledgeBase
  pub documents : Dict String KbDocument
  pub ingest_jobs : Dict String (List KbIngestJob)
  pub connectors : Dict String (List ConnectorInstance)

pub new_memory_kb_store : Store
new_memory_kb_store = record { kbs = []; documents = []; ingest_jobs = []; connectors = [] }

unfoldable pub create_kb : KnowledgeBase → Store → Store
create_kb kb s = record s { kbs = insert kb.id kb s.kbs }

abbrev found : Option KnowledgeBase → Result Error KnowledgeBase
found none = err kb_not_found
found (some kb) = ok kb

unfoldable pub get_kb : String → Store → Result Error KnowledgeBase
get_kb id s = found (lookup id s.kbs)

pub list_kbs : String → Store → List KnowledgeBase
list_kbs workspace s =
    sort (by (λ (k : KnowledgeBase). k.created_at))
      (keep (λ (k : KnowledgeBase). workspace == "" || k.workspace_id == workspace) (values s.kbs))

-- A write to the knowledge base behind the pointer in the map.
unfoldable pub update_kb :
    String → (KnowledgeBase → KnowledgeBase) → Store → Store × Result Error (Unit {0})
update_kb id f s = elim (lookup id s.kbs) [
  | none ↦ (s, err kb_not_found)
  | some kb ↦ (record s { kbs = insert id (f kb) s.kbs }, ok tt)
]

unfoldable pub update_kb_status : String → String → Store → Store × Result Error (Unit {0})
unfolding update_kb
update_kb_status id status s = update_kb id (λ kb. record kb { status = status }) s

unfoldable pub update_kb_embedding_model :
    ℕ → String → String → Store → Store × Result Error (Unit {0})
unfolding update_kb
update_kb_embedding_model now id model s =
    update_kb id (λ kb. record kb { embedding_model = model; updated_at = now }) s

unfoldable pub update_kb_chunking_config :
    ℕ → String → String → Store → Store × Result Error (Unit {0})
unfolding update_kb
update_kb_chunking_config now id config s =
    update_kb id (λ kb. record kb { chunking_config = config; updated_at = now }) s

-- What a reindex makes of a document.
unfoldable pub reset : String → String → KbDocument → KbDocument
reset kb identity doc =
    if doc.kb_id == kb
    then record doc { status = "pending"; ingested_at = none; embedding_identity = identity }
    else doc

abbrev pub indexing : ℕ → String → KnowledgeBase → KnowledgeBase
indexing now identity base = record base {
  embedding_model = identity;
  status = "indexing";
  updated_at = now;
}

unfoldable pub begin_kb_reindex : ℕ → String → String → Store → Store × Result Error (Unit {0})
begin_kb_reindex now id identity s = elim (lookup id s.kbs) [
  | none ↦ (s, err kb_not_found)
  | some base ↦ (
    record s {
      kbs = insert id (indexing now identity base) s.kbs;
      documents = map_values (reset id identity) s.documents;
    },
    ok tt,
  )
]

-- The document keeps its knowledge base from being activated.
abbrev pub blocks : String → String → KbDocument → Bool
blocks kb identity doc =
    doc.kb_id == kb && (not (doc.status == "processed") || not (doc.embedding_identity == identity))

unfoldable pub any_blocks : String → String → List KbDocument → Bool
any_blocks kb identity [] = false
any_blocks kb identity (doc ∷ docs) = blocks kb identity doc || any_blocks kb identity docs

unfoldable pub activate_kb_if_ready : ℕ → String → String → Store → Store × Result Error Bool
activate_kb_if_ready now id identity s = elim (lookup id s.kbs) [
  | none ↦ (s, err kb_not_found)
  | some base ↦
      if not (base.embedding_model == identity)
      then (s, ok false)
      else if any_blocks id identity (values s.documents)
      then (s, ok false)
      else (
        record s { kbs = insert id (record base { status = "active"; updated_at = now }) s.kbs },
        ok true,
      )
]

unfoldable pub upsert_document : KbDocument → Store → Store
upsert_document doc s = record s { documents = insert doc.id doc s.documents }

unfoldable pub get_document : String → Store → Option KbDocument
get_document id s = lookup id s.documents

unfoldable pub list_documents : String → Store → List KbDocument
list_documents kb s = keep (λ (d : KbDocument). d.kb_id == kb) (values s.documents)

unfoldable pub delete_document : String → Store → Store
delete_document id s = record s { documents = erase id s.documents }

abbrev pub is_stale : String → String → KbDocument → Bool
is_stale fingerprint identity doc =
    not (doc.hash == fingerprint)
    || (not (doc.embedding_identity == identity)
        || (not (doc.status == "pending") && not (doc.status == "error")))

abbrev pub marked : ℕ → String → KbDocument → KbDocument
marked now status doc = record doc {
  status = status;
  ingested_at = if status == "processed" then some now else none;
}

unfoldable pub mark_document_status_if_current :
    ℕ → String → String → String → String → Store → Store × Bool
mark_document_status_if_current now id fingerprint identity status s =
    elim (lookup id s.documents) [
      | none ↦ (s, false)
      | some doc ↦
          if is_stale fingerprint identity doc
          then (s, false)
          else (record s { documents = insert id (marked now status doc) s.documents }, true)
    ]

-- What a read of a missing list gives.
abbrev pub or_none {ℓ} : {A : Type ℓ} → Option (List A) → List A
or_none none = []
or_none (some xs) = xs

unfoldable pub list_ingest_jobs : String → Store → List KbIngestJob
list_ingest_jobs kb s = or_none (lookup kb s.ingest_jobs)

unfoldable pub create_ingest_job : KbIngestJob → Store → Store
unfolding list_ingest_jobs
create_ingest_job job s = record s {
  ingest_jobs = insert job.kb_id (list_ingest_jobs job.kb_id s ++ job ∷ []) s.ingest_jobs;
}

replace_job : KbIngestJob → List KbIngestJob → List KbIngestJob
replace_job job [] = []
replace_job job (j ∷ js) = if j.id == job.id then job ∷ js else j ∷ replace_job job js

-- The method does nothing: the caller has written to the job behind the pointer in the list. Ids of
-- jobs are generated, so the job is the one with its id.
unfoldable pub update_ingest_job : KbIngestJob → Store → Store
unfolding replace_job list_ingest_jobs
update_ingest_job job s = record s {
  ingest_jobs = insert job.kb_id (replace_job job (list_ingest_jobs job.kb_id s)) s.ingest_jobs;
}

upsert : ConnectorInstance → List ConnectorInstance → List ConnectorInstance
upsert c [] = c ∷ []
upsert c (existing ∷ rest) = if existing.id == c.id then c ∷ rest else existing ∷ upsert c rest

pub list_connectors : String → Store → List ConnectorInstance
list_connectors kb s = or_none (lookup kb s.connectors)

pub upsert_connector : ConnectorInstance → Store → Store
unfolding upsert list_connectors
upsert_connector c s = record s {
  connectors = insert c.kb_id (upsert c (list_connectors c.kb_id s)) s.connectors;
}
