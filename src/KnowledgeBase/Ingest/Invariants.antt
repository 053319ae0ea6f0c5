-- ===== src/KnowledgeBase/Ingest/Invariants.antt =====
-- An ingest keeps every invariant of the store that its single writes keep.
use ecommerce_ops_agent.Base.{
  ℕ, ◌≡◌, String, List, Bool, some, Result, ok, err, string_eq, Result-cases, Option-cases, inl,
  inr, Bool-cases, List-cases, ◌∷◌,
}
use ecommerce_ops_agent.Base.Dict.{Dict}
use ecommerce_ops_agent.KnowledgeBase.Runes.{Text}
use ecommerce_ops_agent.KnowledgeBase.Record.{KbIngestJob}
use ecommerce_ops_agent.KnowledgeBase.Store.{
  Store, mark_document_status_if_current, update_ingest_job, create_ingest_job,
  activate_kb_if_ready,
}
use ecommerce_ops_agent.KnowledgeBase.Ingest.{
  State, Searcher, Task, Chunk, chunks_from, chunks_of, current_document_version, fail, done,
  finish, index_chunks, added, conclude, index_and_mark, embedding, embed_and_index,
  ingest_document_version, new_job, staged, at_stage,
}

-- An invariant of the store that marking, activating and the records of jobs keep.
pub record Kept (I : Store → Type 0) : Type 0 where
  pub by_mark :
      (now : ℕ) (id fingerprint identity status : String) (s : Store)
      → I s
      → I (mark_document_status_if_current now id fingerprint identity status s).0
  pub by_activation :
      (now : ℕ) (kb identity : String) (s : Store)
      → I s
      → I (activate_kb_if_ready now kb identity s).0
  pub by_jobs :
      (jobs : Dict String (List KbIngestJob)) (s : Store)
      → I s
      → I (record s { ingest_jobs = jobs })

-- So does an index that marks documents itself.
unfoldable pub IndexKeeps : {V R : Type 0} → Searcher V R → (Store → Type 0) → Type 0
IndexKeeps {V} {R} searcher I =
    (f : String
      → String
      → String
      → String
      → List (Chunk V)
      → State R
      → State R × Result String Bool)
    → searcher.versioned ≡ some f
    → (kb id fingerprint identity : String) (chunks : List (Chunk V)) (w : State R) → I w.store
    → I (f kb id fingerprint identity chunks w).0.store

module _ {V R : Type 0} (searcher : Searcher V R) (I : Store → Type 0) (kept : Kept I)
    (keeps : IndexKeeps searcher I) where
  job_kept : (job : KbIngestJob) (s : Store) → I s → I (update_ingest_job job s)
  unfolding update_ingest_job
  job_kept job s u = kept.by_jobs _ s u

  fail-Kept :
      (now : ℕ) (task : Task) (job : KbIngestJob) (stage message : String) (w : State R)
      → I w.store
      → I (fail now task job stage message w).0.store
  unfolding fail
  fail-Kept now task job stage message w u =
      kept.by_mark now task.document_id task.fingerprint task.embedding_identity "error" _
        (job_kept (record job { stage = stage; error = some message }) w.store u)

  done-Kept : (now : ℕ) (job : KbIngestJob) (w : State R) → I w.store → I (done now job w).store
  unfolding done
  done-Kept now job w u = job_kept (record job { stage = "done"; finished_at = some now }) w.store u

  finish-Kept :
      (now : ℕ) (task : Task) (job : KbIngestJob) (w : State R)
      → I w.store
      → I (finish now task job w).0.store
  unfolding finish
  finish-Kept now task job w u =
      kept.by_activation now task.kb_id task.embedding_identity (done now job w).store
        (done-Kept now job w u)

  added-Kept :
      (w : State R) (r : R × Result String (Unit {0})) → I w.store → I (added searcher w r).0.store
  added-Kept w (index, ok _) u = u
  added-Kept w (index, err _) u = u

  created-Kept : (job : KbIngestJob) (w : State R) → I w.store → I (create_ingest_job job w.store)
  unfolding create_ingest_job
  created-Kept job w u = kept.by_jobs _ w.store u

  embedding-Kept : (job : KbIngestJob) (w : State R) → I w.store → I (embedding job w).store
  unfolding embedding
  embedding-Kept job w u =
      job_kept (staged "embed" job) _
        (job_kept (staged "chunk" job) _ (job_kept (staged "parse" job) _ (created-Kept job w u)))

  conclude-Kept :
      (now : ℕ) (task : Task) (job : KbIngestJob) (w : State R)
      → I w.store
      → I (conclude searcher now task job w).0.store
  unfolding conclude done update_ingest_job
  conclude-Kept now task job w u =
      let (s, is_marked) =
        mark_document_status_if_current now task.document_id task.fingerprint
          task.embedding_identity "processed" w.store in
      let v = record w { store = s } in
      let after =
        kept.by_mark now task.document_id task.fingerprint task.embedding_identity "processed"
          w.store u in
      elim (Option-cases searcher.versioned) [
        | inl e ↦ elim (Bool-cases is_marked) [
          | inl m ↦ rw (conclude, e, m) (finish-Kept now task job v after)
          | inr m ↦ rw (conclude, e, m) (done-Kept now job v after)
        ]
        | inr (f, e) ↦ rw (conclude, e) (finish-Kept now task job w u)
      ]

  index-Kept :
      (task : Task) (chunks : List (Chunk V)) (w : State R)
      → I w.store
      → I (index_chunks searcher task chunks w).0.store
  unfolding index_chunks IndexKeeps
  index-Kept task chunks w u = elim (Option-cases searcher.versioned) [
    | inl e ↦ elim (Bool-cases (current_document_version searcher task w.store)) [
      | inl m ↦
          rw (index_chunks, e, m) (added-Kept w (searcher.add_chunks task.kb_id chunks w.index) u)
      | inr m ↦ rw (index_chunks, e, m) u
    ]
    | inr (f, e) ↦
        rw (index_chunks, e)
          (keeps f e task.kb_id task.document_id task.fingerprint task.embedding_identity chunks w
            u)
  ]

  index_and_mark-Kept :
      (now : ℕ) (task : Task) (job : KbIngestJob) (chunks : List (Chunk V)) (w : State R)
      → I w.store
      → I (index_and_mark searcher now task job chunks w).0.store
  unfolding index_and_mark update_ingest_job done
  index_and_mark-Kept now task job chunks w u =
      let at_index = at_stage "index" job w in
      let (v, indexed) = index_chunks searcher task chunks at_index in
      let after = index-Kept task chunks at_index (job_kept (staged "index" job) w.store u) in
      elim (Result-cases indexed) [
        | inl (message, e) ↦ rw (index_and_mark, e) (fail-Kept now task job "index" message v after)
        | inr (is_indexed, e) ↦ elim (Bool-cases is_indexed) [
          | inl i ↦ rw (index_and_mark, e, i) (conclude-Kept now task job v after)
          | inr i ↦ rw (index_and_mark, e, i) (done-Kept now job v after)
        ]
      ]

  embed-Kept :
      (meanwhile : State R → State R) (now : ℕ) (task : Task) (job : KbIngestJob)
      (texts : List Text) (w : State R)
      → ((v : State R) → I v.store → I (meanwhile v).store)
      → I w.store
      → I (embed_and_index searcher meanwhile now task job texts w).0.store
  unfolding embed_and_index embedding update_ingest_job create_ingest_job
  embed-Kept meanwhile now task job texts w others u =
      let v = meanwhile (embedding job w) in
      let after = others (embedding job w) (embedding-Kept job w u) in
      elim (Result-cases (searcher.embed texts)) [
        | inl (message, e) ↦
            rw (embed_and_index, e) (fail-Kept now task job "embed" message v after)
        | inr (embs, e) ↦ elim (Option-cases (chunks_from task.document_id 0 texts embs)) [
          | inl f ↦ rw (embed_and_index, e, f) after
          | inr (chunks, f) ↦
              rw (embed_and_index, e, f) (index_and_mark-Kept now task job chunks v after)
        ]
      ]

  pub ingest-Kept :
      (meanwhile : State R → State R) (now : ℕ) (job_id : String) (task : Task) (w : State R)
      → ((v : State R) → I v.store → I (meanwhile v).store)
      → I w.store
      → I (ingest_document_version searcher meanwhile now job_id task w).0.store
  unfolding ingest_document_version
  ingest-Kept meanwhile now job_id task w others u =
      let job = new_job now job_id task in
      let created = record w { store = create_ingest_job job w.store } in
      let parsed = at_stage "parse" job created in
      elim (Bool-cases (current_document_version searcher task w.store)) [
        | inl c ↦ elim (List-cases (chunks_of task)) [
          | inl e ↦
              rw (ingest_document_version, c, e)
                (fail-Kept now task job "chunk" "文档切片为空" (at_stage "chunk" job parsed) (
                  job_kept (staged "chunk" job) parsed.store
                    (job_kept (staged "parse" job) created.store (created-Kept job w u))))
          | inr (t, ts, e) ↦
              rw (ingest_document_version, c, e)
                (embed-Kept meanwhile now task (new_job now job_id task) (t ∷ ts) w others u)
        ]
        | inr c ↦ rw (ingest_document_version, c) u
      ]
