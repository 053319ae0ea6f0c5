-- ===== src/KnowledgeBase/Service/History.antt =====
-- Over a history of creations, synchronisations and ingests, a search never mixes vector spaces.
use ecommerce_ops_agent.Base.{
  ℕ, ◌≡◌, String, List, [], ◌∷◌, some, none, ok, Option, arith, string_eq, Option-cases, inl, inr,
}
use ecommerce_ops_agent.Base.Dict.{lookup}
use ecommerce_ops_agent.KnowledgeBase.Record.{KbDocument}
use ecommerce_ops_agent.KnowledgeBase.Store.{get_kb}
use ecommerce_ops_agent.KnowledgeBase.Store.Spaces.{Uniform, InSpace, create_kb-Uniform}
use ecommerce_ops_agent.KnowledgeBase.Ingest.{State, Searcher, Task, ingest_document_version}
use ecommerce_ops_agent.KnowledgeBase.Ingest.Invariants.{IndexKeeps, ingest-Kept}
use ecommerce_ops_agent.KnowledgeBase.Sync.{Hashing, Connector, Enqueued, Moment, sync_connector}
use ecommerce_ops_agent.KnowledgeBase.Sync.Spaces.{Uniform-Kept, sync-Uniform}
use ecommerce_ops_agent.KnowledgeBase.Service.{
  CreateKbRequest, new_kb, create_knowledge_base, ensure_searchable, found_kb,
}

-- A call of the service, by a process with a searcher of its own. `meanwhile` is what others do while
-- the embedder of an ingest works, and a synchronisation has what they do at its moments.
pub data Call (V R : Type 0) : Type 0 where
  create : ℕ → String → CreateKbRequest → Searcher V R → Call V R
  sync :
      Searcher V R
      → Hashing
      → (Moment → State R → State R)
      → Connector
      → Option (Task → R → R × Enqueued)
      → (String → Option String)
      → (String → String)
      → ℕ
      → String
      → Call V R
  ingest : Searcher V R → (State R → State R) → ℕ → String → Task → Call V R

module _ {V R : Type 0} where
  unfoldable pub apply : Call V R → State R → State R
  unfolding create_knowledge_base
  apply (create now id req searcher) w = record w {
    store = (create_knowledge_base now id searcher.identity req w.store).0;
  }
  apply (sync searcher hashing others conn enqueuer ctx_err job_ids now kb) w =
      (sync_connector searcher hashing others conn enqueuer ctx_err job_ids now kb w).world
  apply (ingest searcher meanwhile now job_id task) w =
      (ingest_document_version searcher meanwhile now job_id task w).0

  unfoldable pub run : List (Call V R) → State R → State R
  unfolding apply
  run [] w = w
  run (c ∷ cs) w = run cs (apply c w)

  -- What a call relies on: a fresh id, an index and other callers that keep the spaces apart.
  unfoldable pub Sound : Call V R → State R → Type 0
  Sound (create now id req searcher) w = lookup id w.store.kbs ≡ none
  Sound (sync searcher hashing others conn enqueuer ctx_err job_ids now kb) w =
      IndexKeeps searcher (InSpace kb searcher.identity)
      × ((moment : Moment) (v : State R)
          → InSpace kb searcher.identity v.store
          → InSpace kb searcher.identity (others moment v).store)
  Sound (ingest searcher meanwhile now job_id task) w =
      IndexKeeps searcher Uniform × ((v : State R) → Uniform v.store → Uniform (meanwhile v).store)

  unfoldable pub AllSound : List (Call V R) → State R → Type 0
  unfolding apply Sound
  AllSound [] w = Unit
  AllSound (c ∷ cs) w = Sound c w × AllSound cs (apply c w)

  apply-Uniform :
      (c : Call V R) (w : State R) → Sound c w → Uniform w.store → Uniform (apply c w).store
  unfolding apply Sound create_knowledge_base new_kb
  apply-Uniform (create now id req searcher) w fresh u =
      create_kb-Uniform (new_kb now id searcher.identity req) w.store fresh u
  apply-Uniform (sync searcher hashing others conn enqueuer ctx_err job_ids now kb) w
        (keeps, outside) u =
      sync-Uniform searcher hashing others conn enqueuer ctx_err job_ids now kb w keeps outside u
  apply-Uniform (ingest searcher meanwhile now job_id task) w (keeps, others) u =
      ingest-Kept searcher Uniform Uniform-Kept keeps meanwhile now job_id task w others u

  pub run-Uniform :
      (calls : List (Call V R)) (w : State R)
      → AllSound calls w
      → Uniform w.store
      → Uniform (run calls w).store
  unfolding run AllSound
  run-Uniform [] w sound u = u
  run-Uniform (c ∷ cs) w (here, there) u =
      run-Uniform cs (apply c w) there (apply-Uniform c w here u)

  -- After a history of creations, synchronisations and ingests, by processes with any embedders and from
  -- a state that keeps the spaces apart: when the check before a search passes for an embedder, all
  -- documents of the knowledge base are indexed, or are to be, under that embedder's identity. Other
  -- calls may come between the store calls of a synchronisation and while an ingest embeds, as long as
  -- they keep the spaces apart, and those within a synchronisation leave its knowledge base under its
  -- embedder: no other embedder's reindex of that base overlaps with it. Ids of knowledge bases are
  -- fresh, and an index that marks documents itself keeps the spaces apart.
  pub searchable_one_space :
      (calls : List (Call V R)) (w : State R) (kb identity id : String) (doc : KbDocument)
      → AllSound calls w
      → Uniform w.store
      → ensure_searchable identity kb (run calls w).store ≡ ok tt
      → lookup id (run calls w).store.documents ≡ some doc
      → doc.kb_id ≡ kb
      → doc.embedding_identity ≡ identity
  unfolding ensure_searchable found_kb get_kb Uniform
  searchable_one_space calls w kb identity id doc sound u passes here own =
      let uniform = run-Uniform calls w sound u id doc here in
      elim (Option-cases (lookup kb (run calls w).store.kbs)) [
        | inl e ↦ grind (arith, e, passes)
        | inr (base, e) ↦ grind (arith, e, passes, own, uniform)
      ]
