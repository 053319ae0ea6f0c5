-- ===== src/KnowledgeBase/Sync/Skips.antt =====
-- A synchronisation of what is indexed already does nothing.
use ecommerce_ops_agent.Base.{
  ℕ, ◌+◌, ◌≡◌, ◌∙◌, ◌≢◌, ◌⊎◌, contains, Bool, false, [], ◌∷◌, refl, ap, String, List, All, length,
  true, some, none, ok, Option, arith, string_eq,
}
use ecommerce_ops_agent.Base.Dict.{lookup}
use ecommerce_ops_agent.KnowledgeBase.Record.{KnowledgeBase, KbDocument}
use ecommerce_ops_agent.KnowledgeBase.Store.{
  Store, list_documents, get_kb, get_document, activate_kb_if_ready,
}
use ecommerce_ops_agent.KnowledgeBase.Ingest.{State, Searcher, Task}
use ecommerce_ops_agent.KnowledgeBase.Sync.{
  Hashing, Connector, DocumentMeta, Enqueued, Running, sync_connector, sync_document, for_each,
  is_unchanged, doc_id, Moment, reindex_if_changed, chunking_config, drop_missing, drop_document,
  ids_of, activate_after, start,
}

-- The loop over the stored documents leaves this one: it is not a connector's, not this connector's, or
-- still listed.
abbrev pub StaysIn : (String → Bool) → List String → KbDocument → Type 0
StaysIn owns current doc =
    (doc.source_type ≢ "connector")
    ⊎ ((owns doc.source_uri ≡ false) ⊎ (contains current doc.source_uri ≡ true))

-- No source of the connector is missing from its listing, where the listing stands for all of them.
unfoldable pub IsComplete : Option (String → Bool) → String → List DocumentMeta → Store → Type 0
IsComplete none kb metas s = Unit
IsComplete (some owns) kb metas s = All (StaysIn owns (ids_of metas)) (list_documents kb s)

-- Nothing comes between the calls of a synchronisation.
abbrev pub undisturbed : {R : Type 0} → Moment → State R → State R
undisturbed _ w = w

module _ {V R : Type 0} (searcher : Searcher V R) (hashing : Hashing) where
  drop_document-stays :
      (owns : String → Bool) (current : List String) (kb : String) (doc : KbDocument)
      (r : Running R)
      → StaysIn owns current doc
      → drop_document searcher hashing undisturbed owns current kb doc r ≡ r
  unfolding drop_document
  drop_document-stays owns current kb doc r stays = ground (arith, stays)

  for_each-stays :
      (owns : String → Bool) (current : List String) (kb : String) (docs : List KbDocument)
      (r : Running R)
      → All (StaysIn owns current) docs
      → for_each (drop_document searcher hashing undisturbed owns current kb) docs r ≡ r
  unfolding for_each
  for_each-stays owns current kb [] r all = refl
  for_each-stays owns current kb (doc ∷ docs) r (here, there) =
      rw (for_each, drop_document-stays owns current kb doc r here)
        (for_each-stays owns current kb docs r there)

  drop_missing-stays :
      (conn : Connector) (o : Option (String → Bool)) (kb : String) (metas : List DocumentMeta)
      (r : Running R)
      → conn.owns_source ≡ o
      → IsComplete o kb metas r.world.store
      → drop_missing searcher hashing undisturbed conn kb metas r ≡ r
  unfolding drop_missing IsComplete
  drop_missing-stays conn none kb metas r e all = rw e refl
  drop_missing-stays conn (some owns) kb metas r e all =
      rw e (for_each-stays owns (ids_of metas) kb (list_documents kb r.world.store) r all)

module _ {V R : Type 0} (searcher : Searcher V R) (hashing : Hashing) (conn : Connector)
    (enqueuer : Option (Task → R → R × Enqueued)) (ctx_err : String → Option String)
    (job_ids : String → String) (now : ℕ) (kb : String) where
  -- The context is alive in the document's round, and the document is indexed as it is.
  unfoldable pub IsSkipped : Store → DocumentMeta → Type 0
  IsSkipped s m =
      (ctx_err m.id ≡ none)
      × (is_unchanged searcher hashing m (get_document (doc_id searcher hashing kb m.id) s) ≡ true)

  sync_document-skips :
      (m : DocumentMeta) (r : Running R)
      → r.stopped ≡ none
      → IsSkipped r.world.store m
      → sync_document searcher hashing undisturbed conn enqueuer ctx_err job_ids now kb m r
        ≡ record r { result = record r.result { skipped = r.result.skipped + 1 } }
  unfolding IsSkipped sync_document
  sync_document-skips m r going (alive, same) = ground (arith, going, alive, same)

  for_each-skips :
      (metas : List DocumentMeta) (r : Running R)
      → r.stopped ≡ none
      → All (IsSkipped r.world.store) metas
      → for_each
          (sync_document searcher hashing undisturbed conn enqueuer ctx_err job_ids now kb)
          metas
          r
        ≡ record r { result = record r.result { skipped = r.result.skipped + length metas } }
  unfolding for_each
  for_each-skips [] r going all =
      ap (λ n. record r { result = record r.result { skipped = n } }) (omega arith)
  for_each-skips (m ∷ metas) r going (here, there) =
      rw (for_each, sync_document-skips m r going here)
        (for_each-skips metas
            (record r { result = record r.result { skipped = r.result.skipped + 1 } }) going there
          ∙ ap (λ n. record r { result = record r.result { skipped = n } }) (omega arith))

  -- When the embedder and the chunking are those of the knowledge base, no source of the connector is
  -- missing from a listing that stands for all of them, and for every listed document the context is
  -- alive in its round and the document is indexed already under its fingerprint: a synchronisation
  -- that nothing interrupts counts them all as skipped, ingests, queues and deletes nothing, ends
  -- without error, and leaves the documents and the index as they are.
  pub sync-skips :
      (metas : List DocumentMeta) (w : State R) (base : KnowledgeBase)
      → lookup kb w.store.kbs ≡ some base
      → base.embedding_model ≡ searcher.identity
      → base.chunking_config ≡ chunking_config
      → conn.metas ≡ ok metas
      → IsComplete conn.owns_source kb metas w.store
      → All (IsSkipped w.store) metas
      → let r =
          sync_connector searcher hashing undisturbed conn enqueuer ctx_err job_ids now kb w in
        (r.result
          ≡ record { listed = length metas; ingested = 0; skipped = length metas; deleted = 0 })
        × (r.stopped ≡ none)
        × (r.world.store.documents ≡ w.store.documents)
        × (r.world.index ≡ w.index)
  unfolding sync_connector get_kb reindex_if_changed activate_after activate_kb_if_ready
  sync-skips metas w base held own config listed complete all =
      let stays =
        drop_missing-stays searcher hashing conn conn.owns_source kb metas (start metas w) refl
          complete in
      let skipped = for_each-skips metas (start metas w) refl all in
      (
        ground (arith, held, own, config, listed, stays, skipped),
        ground (arith, held, own, config, listed, stays, skipped),
        ground (arith, held, own, config, listed, stays, skipped),
        ground (arith, held, own, config, listed, stays, skipped),
      )
