-- ===== src/KnowledgeBase/Ingest/Runs.antt =====
-- A run of the ingest to its end: what success and failure leave behind.
use ecommerce_ops_agent.Base.{
  ℕ, ◌≡◌, ◌≢◌, ◌∙◌, String, List, [], true, some, none, ok, err, arith, string_eq, refl,
}
use ecommerce_ops_agent.Base.Dict.{lookup, lookup-insert_self}
use ecommerce_ops_agent.KnowledgeBase.Record.{KbDocument, KbIngestJob, KnowledgeBase}
use ecommerce_ops_agent.KnowledgeBase.Store.{
  Store, get_document, mark_document_status_if_current, update_ingest_job, marked,
  activate_kb_if_ready, create_ingest_job,
}
use ecommerce_ops_agent.KnowledgeBase.Ingest.{
  State, Searcher, Task, Chunk, chunks_from, chunks_of, current_document_version, fail, done,
  finish, index_chunks, conclude, index_and_mark, embedding, embed_and_index,
  ingest_document_version, new_job, matches, staged, stage_failed,
}
use ecommerce_ops_agent.KnowledgeBase.Ingest.Stale.{started}

module _ {V R : Type 0} (searcher : Searcher V R) where
  conclude_lem :
      (now : ℕ) (task : Task) (job : KbIngestJob) (w : State R) (doc : KbDocument)
      (base : KnowledgeBase)
      → searcher.versioned ≡ none
      → task.embedding_identity ≡ searcher.identity
      → lookup task.document_id w.store.documents ≡ some doc
      → matches task doc ≡ true
      → lookup task.kb_id w.store.kbs ≡ some base
      → let r = conclude searcher now task job w in
        (r.1 ≡ ok tt)
        × (r.0.index ≡ w.index)
        × (lookup task.document_id r.0.store.documents ≡ some (marked now "processed" doc))
  unfolding conclude finish done activate_kb_if_ready mark_document_status_if_current
      update_ingest_job
  conclude_lem now task job w doc base plain own here current held =
      let read =
        lookup-insert_self task.document_id (marked now "processed" doc) w.store.documents in
      (
        ground (arith, plain, here, current, held),
        ground (arith, plain, here, current, held),
        ground (arith, plain, here, current, held, read),
      )

  indexed_lem :
      (now : ℕ) (task : Task) (job : KbIngestJob) (chunks : List (Chunk V)) (w : State R)
      (index : R)
      → searcher.versioned ≡ none
      → current_document_version searcher task w.store ≡ true
      → searcher.add_chunks task.kb_id chunks w.index ≡ (index, ok tt)
      → index_and_mark searcher now task job chunks w
        ≡ conclude searcher now task job
            (record { store = update_ingest_job (staged "index" job) w.store; index = index })
  unfolding index_and_mark index_chunks current_document_version update_ingest_job get_document
  indexed_lem now task job chunks w index plain current taken =
      ground (arith, plain, current, taken)

  current_lem :
      (task : Task) (s : Store) (doc : KbDocument)
      → current_document_version searcher task s ≡ true
      → lookup task.document_id s.documents ≡ some doc
      → (task.embedding_identity ≡ searcher.identity) × (matches task doc ≡ true)
  unfolding current_document_version get_document
  current_lem task s doc current here = (ground (arith, current), ground (arith, current, here))

  embedding_current :
      (task : Task) (job : KbIngestJob) (w : State R)
      → current_document_version searcher task (embedding job w).store
        ≡ current_document_version searcher task w.store
  unfolding embedding current_document_version get_document update_ingest_job create_ingest_job
  embedding_current task job w = refl

  -- With an index that keeps no versions itself: a run for a document that is current, of a knowledge
  -- base that exists and with content that has chunks, that nothing disturbs, whose embedder gives a
  -- vector for every chunk and whose index takes the chunks, ends without error: the index has taken
  -- exactly the chunks of the content under the task's knowledge base, and the document is processed.
  pub ingest_indexes :
      (now : ℕ) (job_id : String) (task : Task) (w : State R) (doc : KbDocument)
      (base : KnowledgeBase) (embs : List V) (chunks : List (Chunk V)) (index : R)
      → searcher.versioned ≡ none
      → current_document_version searcher task w.store ≡ true
      → lookup task.document_id w.store.documents ≡ some doc
      → lookup task.kb_id w.store.kbs ≡ some base
      → chunks_of task ≢ []
      → searcher.embed (chunks_of task) ≡ ok embs
      → chunks_from task.document_id 0 (chunks_of task) embs ≡ some chunks
      → searcher.add_chunks task.kb_id chunks w.index ≡ (index, ok tt)
      → let r = ingest_document_version searcher (λ v. v) now job_id task w in
        (r.1 ≡ ok tt)
        × (r.0.index ≡ index)
        × (lookup task.document_id r.0.store.documents ≡ some (marked now "processed" doc))
  unfolding embedding update_ingest_job create_ingest_job embed_and_index lookup string_eq
  ingest_indexes now job_id task w doc base embs chunks index plain current here held some_chunks
        vectors all taken =
      let job = new_job now job_id task in
      let v = embedding job w in
      rw
        (
          started searcher (λ v. v) now job_id task w current some_chunks,
          embed_and_index,
          vectors,
          all,
          indexed_lem now task job chunks v index plain (embedding_current task job w ∙ current)
              taken,
        )
        (conclude_lem now task job
          (record { store = update_ingest_job (staged "index" job) v.store; index = index }) doc
          base plain (current_lem task w.store doc current here).0 here
          (current_lem task w.store doc current here).1 held)

  fail_lem :
      (now : ℕ) (task : Task) (job : KbIngestJob) (stage message : String) (w : State R)
      (doc : KbDocument)
      → task.embedding_identity ≡ searcher.identity
      → lookup task.document_id w.store.documents ≡ some doc
      → matches task doc ≡ true
      → let r = fail now task job stage message w in
        (r.1 ≡ err (stage_failed stage message))
        × (r.0.index ≡ w.index)
        × (lookup task.document_id r.0.store.documents ≡ some (marked now "error" doc))
        × (current_document_version searcher task r.0.store ≡ true)
  unfolding current_document_version get_document fail mark_document_status_if_current
      update_ingest_job
  fail_lem now task job stage message w doc own here current =
      let read = lookup-insert_self task.document_id (marked now "error" doc) w.store.documents in
      (
        refl,
        refl,
        ground (arith, own, here, current, read),
        ground (arith, own, here, current, read),
      )

  -- A run for a document that is current, with content that has chunks, that nothing disturbs and
  -- whose embedder fails: it returns the embedder's error under its stage, leaves the index alone and
  -- the document in error, and the document is still current for the same task.
  pub ingest_retries :
      (now : ℕ) (job_id message : String) (task : Task) (w : State R) (doc : KbDocument)
      → current_document_version searcher task w.store ≡ true
      → lookup task.document_id w.store.documents ≡ some doc
      → chunks_of task ≢ []
      → searcher.embed (chunks_of task) ≡ err message
      → let r = ingest_document_version searcher (λ v. v) now job_id task w in
        (r.1 ≡ err (stage_failed "embed" message))
        × (r.0.index ≡ w.index)
        × (lookup task.document_id r.0.store.documents ≡ some (marked now "error" doc))
        × (current_document_version searcher task r.0.store ≡ true)
  unfolding current_document_version get_document embed_and_index embedding update_ingest_job
      create_ingest_job lookup string_eq
  ingest_retries now job_id message task w doc current here some_chunks failed =
      let job = new_job now job_id task in
      let (own, same) = current_lem task w.store doc current here in
      rw (started searcher (λ v. v) now job_id task w current some_chunks, embed_and_index, failed)
        (fail_lem now task job "embed" message (embedding job w) doc own here same)
