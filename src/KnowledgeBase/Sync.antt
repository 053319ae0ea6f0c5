-- ===== src/KnowledgeBase/Sync.antt =====
-- `syncConnector` of internal/platform/kb/service.go over the in-memory store: the synchronisation of a
-- knowledge base with a connector. Parameters: the connector, the queue where there is one,
-- SHA-256 in hexadecimal, the context's error, and what other calls do
-- meanwhile. Ids are generated, the clock is read once.
pub mod Invariants
pub mod Spaces
pub mod Skips
pub mod Examples
use ecommerce_ops_agent.Base.{
  ℕ, ◌+◌, String, ◌<>◌, List, [], ◌∷◌, Bool, true, false, ◌&&◌, ◌||◌, not, Option, none, some,
  Result, ok, err, if◌then◌else◌, ◌==◌, string_eq, length, contains, ltb, map,
}
use ecommerce_ops_agent.Base.Decimal.{decimal}
use ecommerce_ops_agent.KnowledgeBase.Runes.{Text}
use ecommerce_ops_agent.KnowledgeBase.Record.{KnowledgeBase, KbDocument, ConnectorInstance}
use ecommerce_ops_agent.KnowledgeBase.Store.{
  Store, get_kb, create_kb, update_kb_chunking_config, begin_kb_reindex, activate_kb_if_ready,
  get_document, upsert_document, delete_document, list_documents,
}
use ecommerce_ops_agent.KnowledgeBase.Ingest.{
  State, Searcher, Task, IngestError, ingest_document_version, chunk_size, overlap,
}

pub record DocumentMeta : Type 0 where
  pub id : String
  pub title : String
  pub updated_at : ℕ
  pub hash : String

pub record Content : Type 0 where
  pub size : ℕ
  pub runes : Text

-- What reading a document gives, and what closing it gives.
pub record Fetched : Type 0 where
  pub read : Result String Content
  pub closed : Result String (Unit {0})

-- A connector whose listing is complete says which sources it owns.
pub record Connector : Type 0 where
  pub metas : Result String (List DocumentMeta)
  pub owns_source : Option (String → Bool)
  pub fetch_document : String → Result String Fetched

pub data Enqueued : Type 0 where
  queued duplicate : Enqueued
  not_built not_queued : String → Enqueued

pub record Hashing : Type 0 where
  pub sha256_hex : String → String
  pub sha256_half_hex : String → String

pub data SyncError : Type 0 where
  kb_not_found : SyncError
  list_failed cancelled fetch_failed read_failed close_failed not_enqueued : String → SyncError
  remove_failed too_large : String → SyncError
  ingest_failed : IngestError → SyncError

pub record SyncResult : Type 0 where
  pub listed : ℕ
  pub ingested : ℕ
  pub skipped : ℕ
  pub deleted : ℕ

-- A synchronisation on its way; once it has stopped, the rest does nothing.
pub record Running (R : Type 0) : Type 0 where
  pub world : State R
  pub result : SyncResult
  pub stopped : Option SyncError

-- The points of a synchronisation between whose store calls other calls may come: before a document
-- that is no longer listed is dropped, before a listed one is looked up, after it is fetched, while it
-- is embedded, and before the activation.
pub data Moment : Type 0 where
  dropping visiting taking embedding : String → Moment
  ending : Moment

-- 10 << 20.
abbrev pub max_document_bytes : ℕ
max_document_bytes = 10485760

pub chunking_config : String
unfolding decimal
chunking_config =
    "{\"size\":" <> (decimal chunk_size <> (",\"overlap\":" <> (decimal overlap <> "}")))

abbrev pub ingest_pipeline_version : String
ingest_pipeline_version = "rune-chunk-v4-800-100-gse-lexical-v1"

-- `for _, x := range xs`.
unfoldable pub for_each : {A S : Type 0} → (A → S → S) → List A → S → S
for_each f [] s = s
for_each f (x ∷ xs) s = for_each f xs (f x s)

abbrev pub ids_of : List DocumentMeta → List String
ids_of [] = []
ids_of (m ∷ ms) = m.id ∷ ids_of ms

module _ {R : Type 0} where
  -- What others do at a moment.
  abbrev pub beset : (Moment → State R → State R) → Moment → Running R → Running R
  beset others moment r = record r { world = others moment r.world }

  abbrev pub stop : SyncError → Running R → Running R
  stop e r = record r { stopped = some e }

  abbrev pub skip : Running R → Running R
  skip r = record r { result = record r.result { skipped = r.result.skipped + 1 } }

  abbrev pub count_ingested : Running R → Running R
  count_ingested r = record r { result = record r.result { ingested = r.result.ingested + 1 } }

  abbrev pub in_store : (Store → Store) → Running R → Running R
  in_store f r = record r { world = record r.world { store = f r.world.store } }

  abbrev pub ended : Running R → State R × Result IngestError (Unit {0}) → Running R
  ended r (w, ok _) = count_ingested (record r { world = w })
  ended r (w, err e) = stop (ingest_failed e) (record r { world = w })

  abbrev pub handed_over : Running R → R × Enqueued → Running R
  handed_over r (outside, queued) =
      count_ingested (record r { world = record r.world { index = outside } })
  handed_over r (outside, duplicate) =
      skip (record r { world = record r.world { index = outside } })
  handed_over r (outside, not_built e) =
      stop (not_enqueued e) (record r { world = record r.world { index = outside } })
  handed_over r (outside, not_queued e) =
      stop (not_enqueued e) (record r { world = record r.world { index = outside } })

  abbrev pub dropped : KbDocument → Running R → R × Result String (Unit {0}) → Running R
  dropped doc r (index, err e) =
      stop (remove_failed e) (record r { world = record r.world { index = index } })
  dropped doc r (index, ok _) = record r {
    world = record { store = delete_document doc.id r.world.store; index = index };
    result = record r.result { deleted = r.result.deleted + 1 };
  }

  abbrev pub start : List DocumentMeta → State R → Running R
  start metas w = record {
    world = w;
    result = record { listed = length metas; ingested = 0; skipped = 0; deleted = 0 };
    stopped = none;
  }

module _ {V R : Type 0} (searcher : Searcher V R) (hashing : Hashing) where
  unfoldable pub doc_id : String → String → String
  doc_id kb source_uri = hashing.sha256_half_hex (kb <> ("\0" <> source_uri))

  unfoldable pub ingest_fingerprint : String → String
  ingest_fingerprint source_hash =
      hashing.sha256_hex
        (ingest_pipeline_version <> ("\0" <> (searcher.identity <> ("\0" <> source_hash))))

  unfoldable pub is_unchanged : DocumentMeta → Option KbDocument → Bool
  unfolding ingest_fingerprint
  is_unchanged m none = false
  is_unchanged m (some existing) =
      existing.hash == ingest_fingerprint m.hash
      && (existing.embedding_identity == searcher.identity && existing.status == "processed")

  -- The document as it goes into the store.
  unfoldable pub pending_document : ℕ → String → DocumentMeta → KbDocument
  unfolding doc_id ingest_fingerprint
  pending_document now kb m = record {
    id = doc_id kb m.id;
    kb_id = kb;
    source_type = "connector";
    source_uri = m.id;
    hash = ingest_fingerprint m.hash;
    embedding_identity = searcher.identity;
    classification = "internal";
    status = "pending";
    ingested_at = none;
    created_at = now;
  }

  unfoldable pub task_for : String → DocumentMeta → Text → Task
  unfolding doc_id ingest_fingerprint
  task_for kb m content = record {
    kb_id = kb;
    document_id = doc_id kb m.id;
    fingerprint = ingest_fingerprint m.hash;
    embedding_identity = searcher.identity;
    content = content;
  }

-- `others` is what other calls do at each moment.
module _ {V R : Type 0} (searcher : Searcher V R) (hashing : Hashing)
    (others : Moment → State R → State R) where
  -- To the queue where there is one, else through the ingest at once.
  unfoldable pub hand_over :
      Option (Task → R → R × Enqueued) → ℕ → String → Task → Running R → Running R
  unfolding ingest_document_version
  hand_over none now job_id task r = ended r (
      ingest_document_version searcher (others (embedding task.document_id)) now job_id task
        r.world)
  hand_over (some enqueue) now job_id task r = handed_over r (enqueue task r.world.index)

  -- A document that was read in full.
  unfoldable pub take_in :
      Option (Task → R → R × Enqueued)
      → ℕ
      → String
      → String
      → DocumentMeta
      → Content
      → Running R
      → Running R
  unfolding hand_over pending_document task_for upsert_document
  take_in enqueuer now job_id kb m content r =
      if ltb max_document_bytes content.size
      then stop (too_large m.id) r
      else hand_over enqueuer now job_id (task_for searcher hashing kb m content.runes) (
          in_store (upsert_document (pending_document searcher hashing now kb m))
            (beset others (taking m.id) r))

  abbrev pub fetch :
      Option (Task → R → R × Enqueued)
      → ℕ
      → String
      → String
      → DocumentMeta
      → Result String Fetched
      → Running R
      → Running R
  fetch enqueuer now job_id kb m (err e) r = stop (fetch_failed e) r
  fetch enqueuer now job_id kb m (ok fetched) r = elim fetched.read [
    | err e ↦ stop (read_failed e) r
    | ok content ↦ elim fetched.closed [
      | err e ↦ stop (close_failed e) r
      | ok _ ↦ take_in enqueuer now job_id kb m content r
    ]
  ]

  -- One round of the loop over the listing. `ctx_err` is the context's error in the round of a
  -- document, `job_ids` the id generated for its job.
  unfoldable pub sync_document :
      Connector
      → Option (Task → R → R × Enqueued)
      → (String → Option String)
      → (String → String)
      → ℕ
      → String
      → DocumentMeta
      → Running R
      → Running R
  unfolding is_unchanged doc_id get_document take_in
  sync_document conn enqueuer ctx_err job_ids now kb m r = elim r.stopped [
    | some _ ↦ r
    | none ↦ elim (ctx_err m.id) [
      | some e ↦ stop (cancelled e) r
      | none ↦
          let v = beset others (visiting m.id) r in
          if is_unchanged searcher hashing m
            (get_document (doc_id searcher hashing kb m.id) v.world.store)
          then skip v
          else fetch enqueuer now (job_ids m.id) kb m (conn.fetch_document m.id) v
    ]
  ]

  -- One round of the loop over the stored documents: a source of the connector that is no longer listed.
  unfoldable pub drop_document :
      (String → Bool) → List String → String → KbDocument → Running R → Running R
  unfolding delete_document
  drop_document owns current kb doc r = elim r.stopped [
    | some _ ↦ r
    | none ↦
        if not (doc.source_type == "connector") || not (owns doc.source_uri)
        then r
        else if contains current doc.source_uri
        then r
        else let v = beset others (dropping doc.id) r in
          dropped doc v (searcher.remove_document kb doc.id v.world.index)
  ]

  unfoldable pub drop_missing : Connector → String → List DocumentMeta → Running R → Running R
  unfolding for_each drop_document list_documents
  drop_missing conn kb metas r = elim conn.owns_source [
    | none ↦ r
    | some owns ↦
        for_each (drop_document owns (ids_of metas) kb) (list_documents kb r.world.store) r
  ]

  -- Both writes find the knowledge base that was just read, so neither fails.
  unfoldable pub reindex_if_changed : ℕ → String → KnowledgeBase → Store → Store
  unfolding update_kb_chunking_config begin_kb_reindex chunking_config
  reindex_if_changed now kb base s =
      let is_rechunked = not (base.chunking_config == chunking_config) in
      let t = if is_rechunked then (update_kb_chunking_config now kb chunking_config s).0 else s in
      if not (base.embedding_model == searcher.identity) || is_rechunked
      then (begin_kb_reindex now kb searcher.identity t).0
      else t

  unfoldable pub activate_after : ℕ → String → Running R → Running R
  unfolding activate_kb_if_ready
  activate_after now kb r = elim r.stopped [
    | some _ ↦ r
    | none ↦
        let u = beset others ending r in
        let a = activate_kb_if_ready now kb searcher.identity u.world.store in
        let v = record u { world = record u.world { store = a.0 } } in
        elim a.1 [ err _ ↦ stop kb_not_found v | ok _ ↦ v ]
  ]

  -- The whole synchronisation. It takes no lock; no other call comes between the read of the knowledge
  -- base and the start of its reindex. Where the source returns no result beside the error, the result
  -- is of zeroes.
  unfoldable pub sync_connector :
      Connector
      → Option (Task → R → R × Enqueued)
      → (String → Option String)
      → (String → String)
      → ℕ
      → String
      → State R
      → Running R
  unfolding get_kb reindex_if_changed drop_missing for_each sync_document activate_after
  sync_connector conn enqueuer ctx_err job_ids now kb w = elim (get_kb kb w.store) [
    | err _ ↦ stop kb_not_found (start [] w)
    | ok base ↦ elim conn.metas [
      | err e ↦ stop (list_failed e) (start [] w)
      | ok metas ↦
          let v = record w { store = reindex_if_changed now kb base w.store } in
          activate_after now kb (
            for_each (sync_document conn enqueuer ctx_err job_ids now kb) metas
              (drop_missing conn kb metas (start metas v)))
    ]
  ]
