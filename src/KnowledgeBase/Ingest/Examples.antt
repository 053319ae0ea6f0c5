-- ===== src/KnowledgeBase/Ingest/Examples.antt =====
-- A document of one letter, an embedder of numbers, and an index that is the list of its chunks.
use text.Mathlib.TextEquality.{eq_iff}
use ecommerce_ops_agent.Base.{
  ℕ, ◌≡◌, ◌≢◌, refl, List, [], ◌∷◌, ◌++◌, true, some, none, ok, err, arith, string_eq, nat_eq, ap,
}
use ecommerce_ops_agent.Base.Dict.{lookup, insert}
use ecommerce_ops_agent.Base.Decimal.{decimal}
use ecommerce_ops_agent.KnowledgeBase.Runes.{Text}
use ecommerce_ops_agent.KnowledgeBase.Chunk.Examples.{one_letter}
use ecommerce_ops_agent.KnowledgeBase.Store.{
  upsert_document, get_document, create_ingest_job, update_ingest_job, marked,
}
use ecommerce_ops_agent.KnowledgeBase.Store.Examples.{base, doc, store_with}
use ecommerce_ops_agent.KnowledgeBase.Ingest.{
  State, Searcher, Task, Chunk, chunks_of, chunks_from, current_document_version, embedding,
  ingest_document_version, new_job, stage_failed,
}
use ecommerce_ops_agent.KnowledgeBase.Ingest.Stale.{IsStale, SameButJobs, ingest_stale}
use ecommerce_ops_agent.KnowledgeBase.Ingest.Runs.{ingest_indexes, ingest_retries}

abbrev zeroes : List Text → List ℕ
zeroes [] = []
zeroes (_ ∷ ts) = 0 ∷ zeroes ts

abbrev pub searcher : Searcher ℕ (List (Chunk ℕ))
searcher = record {
  identity = "e1";
  embed = λ texts. ok (zeroes texts);
  add_chunks = λ _ chunks index. (index ++ chunks, ok tt);
  remove_document = λ _ _ index. (index, ok tt);
  versioned = none;
}

abbrev offline : Searcher ℕ (List (Chunk ℕ))
offline = record searcher { embed = λ _. err "offline" }

abbrev pub letter : Text
letter = 97 ∷ []

abbrev pub task : Task
task = record {
  kb_id = "k1";
  document_id = "d1";
  fingerprint = "h1";
  embedding_identity = "e1";
  content = letter;
}

abbrev pub before : State (List (Chunk ℕ))
before = record { store = store_with doc; index = [] }

chunks : chunks_of task ≡ letter ∷ []
unfolding chunks_of
chunks = one_letter

some_chunks : chunks_of task ≢ []
some_chunks p = ground (arith, p, chunks)

abbrev only : Chunk ℕ
only = record { id = "d1#0"; doc_id = "d1"; ordinal = 0; content = letter; embedding = 0 }

chunked : chunks_from "d1" 0 (chunks_of task) (0 ∷ []) ≡ some (only ∷ [])
unfolding chunks_from decimal
chunked = rw (chunks) refl

-- Meanwhile the document gets a new version.
abbrev changed : State (List (Chunk ℕ)) → State (List (Chunk ℕ))
changed w = record w { store = upsert_document (record doc { hash = "h2" }) w.store }

changed-IsStale : IsStale task (changed (embedding (new_job 7 "j1" task) before)).store
unfolding IsStale upsert_document embedding create_ingest_job update_ingest_job insert lookup
    string_eq
changed-IsStale d here = ground (arith, here, eq_iff "h2" "h1")

ingest_stale_example :
    SameButJobs
      (ingest_document_version searcher changed 7 "j1" task before).0
      (changed (embedding (new_job 7 "j1" task) before))
unfolding current_document_version get_document lookup string_eq
ingest_stale_example =
    ingest_stale searcher changed 7 "j1" task before refl refl some_chunks changed-IsStale

ingest_indexes_example :
    let r = ingest_document_version searcher (λ v. v) 7 "j1" task before in
    (r.1 ≡ ok tt)
    × (r.0.index ≡ only ∷ [])
    × (lookup "d1" r.0.store.documents ≡ some (marked 7 "processed" doc))
unfolding current_document_version get_document lookup string_eq chunks_from
ingest_indexes_example =
    ingest_indexes searcher 7 "j1" task before doc base (0 ∷ []) (only ∷ []) (only ∷ []) refl refl
      refl refl some_chunks (ap (λ ts. ok (zeroes ts)) chunks) chunked refl

ingest_retries_example :
    let r = ingest_document_version offline (λ v. v) 7 "j1" task before in
    (r.1 ≡ err (stage_failed "embed" "offline"))
    × (r.0.index ≡ [])
    × (lookup "d1" r.0.store.documents ≡ some (marked 7 "error" doc))
    × (current_document_version offline task r.0.store ≡ true)
unfolding current_document_version get_document lookup string_eq
ingest_retries_example =
    ingest_retries offline 7 "j1" "offline" task before doc refl refl some_chunks refl
