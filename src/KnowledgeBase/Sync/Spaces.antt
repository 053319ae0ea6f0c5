-- ===== src/KnowledgeBase/Sync/Spaces.antt =====
-- A synchronisation leaves every document in the vector space of its knowledge base.
use ecommerce_ops_agent.Base.{
  ℕ, ◌≡◌, String, some, Option, refl, string_eq, ◌==◌, Result-cases, Option-cases, Bool-cases, inl,
  inr, arith,
}
use ecommerce_ops_agent.Base.Dict.{lookup, lookup-insert_self}
use ecommerce_ops_agent.KnowledgeBase.Record.{KnowledgeBase}
use ecommerce_ops_agent.KnowledgeBase.Store.{Store, get_kb, update_kb, update_kb_chunking_config}
use ecommerce_ops_agent.KnowledgeBase.Store.Spaces.{
  Uniform, InSpace, begin-InSpace, activate-InSpace, mark-InSpace, upsert-InSpace, delete-InSpace,
  update_kb-Uniform, mark-Uniform, activate-Uniform,
}
use ecommerce_ops_agent.KnowledgeBase.Ingest.{State, Searcher, Task}
use ecommerce_ops_agent.KnowledgeBase.Ingest.Invariants.{Kept, IndexKeeps}
use ecommerce_ops_agent.KnowledgeBase.Sync.{
  Hashing, Connector, Enqueued, sync_connector, reindex_if_changed, chunking_config,
  pending_document, start, Moment,
}
use ecommerce_ops_agent.KnowledgeBase.Sync.Invariants.{synced-Kept}

pub Uniform-Kept : Kept Uniform
unfolding Uniform
Uniform-Kept = record {
  by_mark = mark-Uniform;
  by_activation = activate-Uniform;
  by_jobs = λ jobs s u. u;
}

pub InSpace-Kept : (kb identity : String) → Kept (InSpace kb identity)
unfolding InSpace Uniform
InSpace-Kept kb identity = record {
  by_mark = λ now id fingerprint asked status s h.
      mark-InSpace now id fingerprint asked status kb identity s h;
  by_activation = λ now other asked s h. activate-InSpace now other asked kb identity s h;
  by_jobs = λ jobs s h. h;
}

update-found :
    (kb : String) (f : KnowledgeBase → KnowledgeBase) (base : KnowledgeBase) (s : Store)
    → lookup kb s.kbs ≡ some base
    → lookup kb (update_kb kb f s).0.kbs ≡ some (f base)
unfolding update_kb
update-found kb f base s held = ground (arith, held, lookup-insert_self kb (f base) s.kbs)

module _ {V R : Type 0} (searcher : Searcher V R) (hashing : Hashing)
    (others : Moment → State R → State R) where
  reindex-InSpace :
      (now : ℕ) (kb : String) (base : KnowledgeBase) (s : Store)
      → lookup kb s.kbs ≡ some base
      → Uniform s
      → InSpace kb searcher.identity (reindex_if_changed searcher hashing others now kb base s)
  unfolding reindex_if_changed InSpace update_kb_chunking_config
  reindex-InSpace now kb base s held u =
      let rewrite : KnowledgeBase → KnowledgeBase =
        λ k. record k { chunking_config = chunking_config; updated_at = now } in
      let begun =
        begin-InSpace now kb searcher.identity (update_kb kb rewrite s).0 (rewrite base)
          (update-found kb rewrite base s held) (update_kb-Uniform kb rewrite s (λ _. refl) u) in
      elim (Bool-cases (base.chunking_config == chunking_config)) [
        | inl c ↦ elim (Bool-cases (base.embedding_model == searcher.identity)) [
          | inl m ↦ rw (reindex_if_changed, c, m) (u, ground (arith, held, m))
          | inr m ↦
              rw (reindex_if_changed, c, m) (begin-InSpace now kb searcher.identity s base held u)
        ]
        | inr c ↦ elim (Bool-cases (base.embedding_model == searcher.identity)) [
          | inl m ↦ rw (reindex_if_changed, c, m) begun
          | inr m ↦ rw (reindex_if_changed, c, m) begun
        ]
      ]

  pub sync-Uniform :
      (conn : Connector) (enqueuer : Option (Task → R → R × Enqueued))
      (ctx_err : String → Option String) (job_ids : String → String) (now : ℕ) (kb : String)
      (w : State R)
      → IndexKeeps searcher (InSpace kb searcher.identity)
      → ((moment : Moment) (v : State R)
          → InSpace kb searcher.identity v.store
          → InSpace kb searcher.identity (others moment v).store)
      → Uniform w.store
      → Uniform
          (sync_connector searcher hashing others conn enqueuer ctx_err job_ids now kb
            w).world.store
  unfolding sync_connector get_kb InSpace pending_document
  sync-Uniform conn enqueuer ctx_err job_ids now kb w keeps outside u =
      elim (Option-cases (lookup kb w.store.kbs)) [
        | inl e ↦ rw (sync_connector, e) u
        | inr (base, e) ↦ elim (Result-cases conn.metas) [
          | inl (_, f) ↦ rw (sync_connector, e, f) u
          | inr (metas, f) ↦
              rw (sync_connector, e, f)
                (synced-Kept searcher hashing (InSpace kb searcher.identity)
                  (InSpace-Kept kb searcher.identity) keeps now kb
                  (λ m s h.
                    upsert-InSpace (pending_document searcher hashing now kb m) kb searcher.identity
                      s refl refl h)
                  (λ id s h. delete-InSpace id kb searcher.identity s h) others outside conn
                  enqueuer ctx_err job_ids metas
                  (start metas (record w {
                    store = reindex_if_changed searcher hashing others now kb base w.store;
                  }))
                  (reindex-InSpace now kb base w.store e u)).0
        ]
      ]
