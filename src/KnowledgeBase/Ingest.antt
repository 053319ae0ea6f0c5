-- ===== src/KnowledgeBase/Ingest.antt =====
-- internal/platform/kb/ingest.go over the in-memory store. The searcher is internal/runtime/retriever
-- behind its interfaces, a parameter: its embedder, its index and, where it has one, the index that
-- checks and marks the document itself. Its own state is of type `R`, a vector of type `V`. Spans
-- leave no trace in the state.
pub mod Stale
pub mod Runs
pub mod Invariants
pub mod Examples
use ecommerce_ops_agent.Base.{
  ℕ, ◌+◌, String, ◌<>◌, List, [], ◌∷◌, Bool, true, false, ◌&&◌, ◌||◌, not, Option, none, some,
  Result, ok, err, if◌then◌else◌, ◌==◌, string_eq,
}
use ecommerce_ops_agent.Base.Decimal.{decimal}
use ecommerce_ops_agent.Base.Int.{pos}
use ecommerce_ops_agent.KnowledgeBase.Runes.{Text}
use ecommerce_ops_agent.KnowledgeBase.Chunk.{chunk_text}
use ecommerce_ops_agent.KnowledgeBase.Record.{KbDocument, KbIngestJob}
use ecommerce_ops_agent.KnowledgeBase.Store.{
  Store, Error as StoreError, get_document, create_ingest_job, update_ingest_job,
  mark_document_status_if_current, activate_kb_if_ready,
}

pub data IngestError : Type 0 where
  document_not_found activate_failed panic : IngestError
  stage_failed : String → String → IngestError

pub record Chunk (V : Type 0) : Type 0 where
  pub id : String
  pub doc_id : String
  pub ordinal : ℕ
  pub content : Text
  pub embedding : V

pub record State (R : Type 0) : Type 0 where
  pub store : Store
  pub index : R

pub record Searcher (V R : Type 0) : Type 0 where
  pub identity : String
  pub embed : List Text → Result String (List V)
  pub add_chunks : String → List (Chunk V) → R → R × Result String (Unit {0})
  pub remove_document : String → String → R → R × Result String (Unit {0})
  pub versioned :
      Option (
        String → String → String → String → List (Chunk V) → State R → State R × Result String Bool)

-- The document version a task was made for.
pub record Task : Type 0 where
  pub kb_id : String
  pub document_id : String
  pub fingerprint : String
  pub embedding_identity : String
  pub content : Text

abbrev pub chunk_size : ℕ
chunk_size = 800

abbrev pub overlap : ℕ
overlap = 100

-- `chunks[i]` from `texts[i]` and `embs[i]`: a missing vector is an index out of range.
unfoldable pub chunks_from :
    {V : Type 0} → String → ℕ → List Text → List V → Option (List (Chunk V))
chunks_from doc i [] embs = some []
chunks_from doc i (t ∷ ts) [] = none
chunks_from doc i (t ∷ ts) (v ∷ vs) = elim (chunks_from doc (i + 1) ts vs) [
  | none ↦ none
  | some rest ↦ some (
      record {
        id = doc <> ("#" <> decimal i);
        doc_id = doc;
        ordinal = i;
        content = t;
        embedding = v;
      }
      ∷ rest)
]

abbrev pub matches : Task → KbDocument → Bool
matches task doc =
    doc.kb_id == task.kb_id
    && (doc.hash == task.fingerprint
        && (doc.embedding_identity == task.embedding_identity
            && (doc.status == "pending" || doc.status == "error")))

abbrev pub staged : String → KbIngestJob → KbIngestJob
staged stage job = record job { stage = stage }

abbrev activation : Result StoreError Bool → Result IngestError (Unit {0})
activation (ok _) = ok tt
activation (err _) = err activate_failed

abbrev is_nil : List Text → Bool
is_nil [] = true
is_nil (_ ∷ _) = false

pub chunks_of : Task → List Text
chunks_of task = chunk_text task.content (pos chunk_size) (pos overlap)

abbrev task_of : String → String → Text → KbDocument → Task
task_of kb id content doc = record {
  kb_id = kb;
  document_id = id;
  fingerprint = doc.hash;
  embedding_identity = doc.embedding_identity;
  content = content;
}

abbrev pub new_job : ℕ → String → Task → KbIngestJob
new_job now id task = record {
  id = id;
  kb_id = task.kb_id;
  doc_id = task.document_id;
  stage = "parse";
  retries = 0;
  error = none;
  started_at = now;
  finished_at = none;
}

module _ {R : Type 0} where
  unfoldable pub fail :
      ℕ → Task → KbIngestJob → String → String → State R → State R × Result IngestError (Unit {0})
  unfolding mark_document_status_if_current update_ingest_job
  fail now task job stage message w =
      let noted = update_ingest_job (record job { stage = stage; error = some message }) w.store in
      (
        record w {
          store =
              (mark_document_status_if_current now task.document_id task.fingerprint
                task.embedding_identity "error" noted).0;
        },
        err (stage_failed stage message),
      )

  unfoldable pub done : ℕ → KbIngestJob → State R → State R
  unfolding update_ingest_job
  done now job w = record w {
    store = update_ingest_job (record job { stage = "done"; finished_at = some now }) w.store;
  }

  unfoldable pub finish : ℕ → Task → KbIngestJob → State R → State R × Result IngestError (Unit {0})
  unfolding done activate_kb_if_ready
  finish now task job w =
      let ended = done now job w in
      let r = activate_kb_if_ready now task.kb_id task.embedding_identity ended.store in
      (record ended { store = r.0 }, activation r.1)

  abbrev pub at_stage : String → KbIngestJob → State R → State R
  at_stage stage job w = record w { store = update_ingest_job (staged stage job) w.store }

  -- The job is in the store and the document about to be embedded.
  unfoldable pub embedding : KbIngestJob → State R → State R
  unfolding create_ingest_job update_ingest_job
  embedding job w = at_stage "embed" job (
      at_stage "chunk" job
        (at_stage "parse" job (record w { store = create_ingest_job job w.store })))

module _ {V R : Type 0} (searcher : Searcher V R) where
  unfoldable pub current_document_version : Task → Store → Bool
  unfolding get_document
  current_document_version task s =
      if not (task.embedding_identity == searcher.identity)
      then false
      else elim (get_document task.document_id s) [ none ↦ false | some doc ↦ matches task doc ]

  abbrev pub added : State R → R × Result String (Unit {0}) → State R × Result String Bool
  added w (index, ok _) = (record w { index = index }, ok true)
  added w (index, err e) = (record w { index = index }, err e)

  unfoldable pub index_chunks : Task → List (Chunk V) → State R → State R × Result String Bool
  unfolding current_document_version
  index_chunks task chunks w = elim searcher.versioned [
    | some index_if_current ↦
        index_if_current task.kb_id task.document_id task.fingerprint task.embedding_identity chunks
          w
    | none ↦
        if current_document_version task w.store
        then added w (searcher.add_chunks task.kb_id chunks w.index)
        else (w, ok false)
  ]

  -- After the index has taken the chunks: an index that does not mark the document leaves that here.
  unfoldable pub conclude :
      ℕ → Task → KbIngestJob → State R → State R × Result IngestError (Unit {0})
  unfolding finish done mark_document_status_if_current
  conclude now task job w = elim searcher.versioned [
    | some _ ↦ finish now task job w
    | none ↦
        let (s, is_marked) =
          mark_document_status_if_current now task.document_id task.fingerprint
            task.embedding_identity "processed" w.store in
        let v = record w { store = s } in
        if is_marked then finish now task job v else (done now job v, ok tt)
  ]

  unfoldable pub index_and_mark :
      ℕ → Task → KbIngestJob → List (Chunk V) → State R → State R × Result IngestError (Unit {0})
  unfolding index_chunks conclude fail done update_ingest_job
  index_and_mark now task job chunks w =
      let (v, indexed) =
        index_chunks task chunks
          (record w { store = update_ingest_job (staged "index" job) w.store }) in
      elim indexed [
        | err message ↦ fail now task job "index" message v
        | ok false ↦ (done now job v, ok tt)
        | ok true ↦ conclude now task job v
      ]

  -- `meanwhile` is what other callers do to the state while the embedder works.
  unfoldable pub embed_and_index :
      (State R → State R)
      → ℕ
      → Task
      → KbIngestJob
      → List Text
      → State R
      → State R × Result IngestError (Unit {0})
  unfolding embedding index_and_mark fail chunks_from
  embed_and_index meanwhile now task job texts w =
      let v = meanwhile (embedding job w) in
      elim (searcher.embed texts) [
        | err message ↦ fail now task job "embed" message v
        | ok embs ↦ elim (chunks_from task.document_id 0 texts embs) [
          | none ↦ (v, err panic)
          | some chunks ↦ index_and_mark now task job chunks v
        ]
      ]

  unfoldable pub ingest_document_version :
      (State R → State R) → ℕ → String → Task → State R → State R × Result IngestError (Unit {0})
  unfolding current_document_version embed_and_index fail create_ingest_job update_ingest_job
      chunks_of
  ingest_document_version meanwhile now job_id task w =
      let job = new_job now job_id task in
      let texts = chunks_of task in
      let chunked =
        at_stage "chunk" job
          (at_stage "parse" job (record w { store = create_ingest_job job w.store })) in
      if not (current_document_version task w.store)
      then (w, ok tt)
      else if is_nil texts
      then fail now task job "chunk" "文档切片为空" chunked
      else embed_and_index meanwhile now task job texts w

  pub ingest_document :
      (State R → State R)
      → ℕ
      → String
      → String
      → String
      → Text
      → State R
      → State R × Result IngestError (Unit {0})
  unfolding ingest_document_version get_document
  ingest_document meanwhile now job_id kb id content w = elim (get_document id w.store) [
    | none ↦ (w, err document_not_found)
    | some doc ↦ ingest_document_version meanwhile now job_id (task_of kb id content doc) w
  ]
