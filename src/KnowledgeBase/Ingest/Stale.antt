-- ===== src/KnowledgeBase/Ingest/Stale.antt =====
-- A worker whose document has moved on while it embedded leaves no trace but its job.
use ecommerce_ops_agent.Base.{
  ℕ, ◌≡◌, ◌≢◌, String, List, [], true, false, some, none, ok, arith, string_eq, refl, Result-cases,
  Option-cases, inl, inr,
}
use ecommerce_ops_agent.Base.Dict.{lookup}
use ecommerce_ops_agent.KnowledgeBase.Record.{KbDocument, KbIngestJob}
use ecommerce_ops_agent.KnowledgeBase.Store.{
  Store, get_document, is_stale, mark_document_status_if_current, update_ingest_job,
}
use ecommerce_ops_agent.KnowledgeBase.Ingest.{
  State, Searcher, Task, Chunk, chunks_from, chunks_of, current_document_version, fail, done,
  index_chunks, index_and_mark, embedding, embed_and_index, ingest_document_version, new_job,
}

-- The document is gone or is not the version of the task.
unfoldable pub IsStale : Task → Store → Type 0
IsStale task s =
    (doc : KbDocument)
    → lookup task.document_id s.documents ≡ some doc
    → is_stale task.fingerprint task.embedding_identity doc ≡ true

-- Two states that differ in the records of jobs only.
pub SameButJobs : {R : Type 0} → State R → State R → Type 0
SameButJobs v w =
    (v.store.kbs ≡ w.store.kbs) × (v.store.documents ≡ w.store.documents) × (v.index ≡ w.index)

SameButJobs-refl : {R : Type 0} → (w : State R) → SameButJobs w w
unfolding SameButJobs
SameButJobs-refl w = (refl, refl, refl)

module _ {V R : Type 0} (searcher : Searcher V R) where
  IsStale-current :
      (task : Task) (s : Store) → IsStale task s → current_document_version searcher task s ≡ false
  unfolding IsStale current_document_version get_document
  IsStale-current task s stale = grind (arith, stale)

  fail-SameButJobs :
      (now : ℕ) (task : Task) (job : KbIngestJob) (stage message : String) (w : State R)
      → IsStale task w.store
      → SameButJobs (fail now task job stage message w).0 w
  unfolding IsStale SameButJobs fail mark_document_status_if_current update_ingest_job
  fail-SameButJobs now task job stage message w stale =
      (grind (arith, stale), grind (arith, stale), grind (arith, stale))

  index_and_mark-SameButJobs :
      (now : ℕ) (task : Task) (job : KbIngestJob) (chunks : List (Chunk V)) (w : State R)
      → searcher.versioned ≡ none
      → IsStale task w.store
      → SameButJobs (index_and_mark searcher now task job chunks w).0 w
  unfolding IsStale SameButJobs index_and_mark index_chunks update_ingest_job
      current_document_version get_document done
  index_and_mark-SameButJobs now task job chunks w plain stale =
      (grind (arith, stale, plain), grind (arith, stale, plain), grind (arith, stale, plain))

  embed-SameButJobs :
      (meanwhile : State R → State R) (now : ℕ) (task : Task) (job : KbIngestJob)
      (texts : List (List ℕ)) (w : State R)
      → searcher.versioned ≡ none
      → let v = meanwhile (embedding job w) in
        IsStale task v.store
        → SameButJobs (embed_and_index searcher meanwhile now task job texts w).0 v
  unfolding embed_and_index
  embed-SameButJobs meanwhile now task job texts w plain stale =
      let v = meanwhile (embedding job w) in
      elim (Result-cases (searcher.embed texts)) [
        | inl (message, e) ↦
            rw (embed_and_index, e) (fail-SameButJobs now task job "embed" message v stale)
        | inr (embs, e) ↦ elim (Option-cases (chunks_from task.document_id 0 texts embs)) [
          | inl f ↦ rw (embed_and_index, e, f) (SameButJobs-refl v)
          | inr (chunks, f) ↦
              rw (embed_and_index, e, f)
                (index_and_mark-SameButJobs now task job chunks v plain stale)
        ]
      ]

  -- A current document with chunks is embedded.
  pub started :
      (meanwhile : State R → State R) (now : ℕ) (job_id : String) (task : Task) (w : State R)
      → current_document_version searcher task w.store ≡ true
      → chunks_of task ≢ []
      → ingest_document_version searcher meanwhile now job_id task w
        ≡ embed_and_index searcher meanwhile now task (new_job now job_id task) (chunks_of task) w
  unfolding ingest_document_version
  started meanwhile now job_id task w current some_chunks = grind (arith, current, some_chunks)

  -- When other callers change the document while the embedder works, so that it is no longer the
  -- version the task was made for, the worker leaves every document, every knowledge base and the
  -- index as those callers left them, whatever the embedder returns. For a document that is current
  -- when the worker starts and has chunks, and an index that does not check versions itself.
  pub ingest_stale :
      (meanwhile : State R → State R) (now : ℕ) (job_id : String) (task : Task) (w : State R)
      → searcher.versioned ≡ none
      → current_document_version searcher task w.store ≡ true
      → chunks_of task ≢ []
      → let v = meanwhile (embedding (new_job now job_id task) w) in
        IsStale task v.store
        → SameButJobs (ingest_document_version searcher meanwhile now job_id task w).0 v
  unfolding ingest_document_version
  ingest_stale meanwhile now job_id task w plain current some_chunks stale =
      rw (started meanwhile now job_id task w current some_chunks) (
        embed-SameButJobs meanwhile now task (new_job now job_id task) (chunks_of task) w plain
          stale)

  -- A task whose document is no longer its version when the worker starts changes nothing at all.
  pub ingest_refused :
      (meanwhile : State R → State R) (now : ℕ) (job_id : String) (task : Task) (w : State R)
      → IsStale task w.store
      → ingest_document_version searcher meanwhile now job_id task w ≡ (w, ok tt)
  unfolding ingest_document_version
  ingest_refused meanwhile now job_id task w stale = rw (IsStale-current task w.store stale) refl
