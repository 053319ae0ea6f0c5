-- ===== src/KnowledgeBase/Sync/Invariants.antt =====
-- A synchronisation keeps every invariant of the store that its single writes keep.
use ecommerce_ops_agent.Base.{
  ℕ, String, List, [], ◌∷◌, Bool, some, none, ok, err, Result, Option, Result-cases, Option-cases,
  Bool-cases, inl, inr, contains, not, ◌||◌, ◌==◌, string_eq, ltb,
}
use ecommerce_ops_agent.KnowledgeBase.Record.{KbDocument}
use ecommerce_ops_agent.KnowledgeBase.Store.{
  Store, upsert_document, delete_document, get_document, list_documents, activate_kb_if_ready,
}
use ecommerce_ops_agent.KnowledgeBase.Ingest.{
  State, Searcher, Task, IngestError, ingest_document_version,
}
use ecommerce_ops_agent.KnowledgeBase.Ingest.Invariants.{Kept, IndexKeeps, ingest-Kept}
use ecommerce_ops_agent.KnowledgeBase.Sync.{
  Hashing, Connector, DocumentMeta, Content, Fetched, Enqueued, queued, duplicate, not_built,
  not_queued, Running, is_unchanged, doc_id, ids_of, for_each, ended, handed_over, hand_over,
  take_in, fetch, sync_document, dropped, drop_document, drop_missing, activate_after, Moment,
  dropping, visiting, taking, embedding, ending, beset, pending_document, max_document_bytes,
  in_store, task_for,
}

for_each-keeps :
    {A S : Type 0} (P : S → Type 0) (f : A → S → S)
    → ((a : A) (s : S) → P s → P (f a s))
    → (xs : List A) (s : S) → P s
    → P (for_each f xs s)
unfolding for_each
for_each-keeps P f step [] s p = p
for_each-keeps P f step (x ∷ xs) s p = for_each-keeps P f step xs (f x s) (step x s p)

module _ {V R : Type 0} (searcher : Searcher V R) (hashing : Hashing) (I : Store → Type 0)
    (kept : Kept I) (keeps : IndexKeeps searcher I) (now : ℕ) (kb : String)
    (by_upsert : (m : DocumentMeta) (s : Store)
      → I s
      → I (upsert_document (pending_document searcher hashing now kb m) s))
    (by_delete : (id : String) (s : Store) → I s → I (delete_document id s))
    (others : Moment → State R → State R)
    (by_others : (moment : Moment) (w : State R) → I w.store → I (others moment w).store) where
  Holds : Running R → Type 0
  Holds r = I r.world.store

  ended-Holds :
      (r : Running R) (e : State R × Result IngestError (Unit {0}))
      → I e.0.store
      → Holds (ended r e)
  unfolding Holds
  ended-Holds r (w, ok _) h = h
  ended-Holds r (w, err _) h = h

  handed_over-Holds : (r : Running R) (e : R × Enqueued) → Holds r → Holds (handed_over r e)
  unfolding Holds
  handed_over-Holds r (_, queued) h = h
  handed_over-Holds r (_, duplicate) h = h
  handed_over-Holds r (_, not_built _) h = h
  handed_over-Holds r (_, not_queued _) h = h

  hand_over-Holds :
      (enqueuer : Option (Task → R → R × Enqueued)) (job_id : String) (task : Task) (r : Running R)
      → Holds r
      → Holds (hand_over searcher hashing others enqueuer now job_id task r)
  unfolding hand_over Holds
  hand_over-Holds none job_id task r h =
      ended-Holds r
        (ingest_document_version searcher (others (embedding task.document_id)) now job_id task
          r.world)
        (ingest-Kept searcher I kept keeps (others (embedding task.document_id)) now job_id task
          r.world (by_others (embedding task.document_id)) h)
  hand_over-Holds (some enqueue) job_id task r h =
      handed_over-Holds r (enqueue task r.world.index) h

  take_in-Holds :
      (enqueuer : Option (Task → R → R × Enqueued)) (job_id : String) (m : DocumentMeta)
      (content : Content) (r : Running R)
      → Holds r
      → Holds (take_in searcher hashing others enqueuer now job_id kb m content r)
  unfolding take_in Holds
  take_in-Holds enqueuer job_id m content r h =
      elim (Bool-cases (ltb max_document_bytes content.size)) [
        | inl e ↦ rw (take_in, e) h
        | inr e ↦
            rw (take_in, e)
              (hand_over-Holds enqueuer job_id (task_for searcher hashing kb m content.runes)
                (in_store (upsert_document (pending_document searcher hashing now kb m))
                  (beset others (taking m.id) r))
                (by_upsert m (others (taking m.id) r.world).store
                  (by_others (taking m.id) r.world h)))
      ]

  fetch-Holds :
      (enqueuer : Option (Task → R → R × Enqueued)) (job_id : String) (m : DocumentMeta)
      (fetched : Result String Fetched) (r : Running R)
      → Holds r
      → Holds (fetch searcher hashing others enqueuer now job_id kb m fetched r)
  unfolding Holds
  fetch-Holds enqueuer job_id m (err e) r h = h
  fetch-Holds enqueuer job_id m (ok fetched) r h = elim (Result-cases fetched.read) [
    | inl (_, e) ↦ rw (e) h
    | inr (content, e) ↦ elim (Result-cases fetched.closed) [
      | inl (_, c) ↦ rw (e, c) h
      | inr (_, c) ↦ rw (e, c) (take_in-Holds enqueuer job_id m content r h)
    ]
  ]

  sync_document-Holds :
      (conn : Connector) (enqueuer : Option (Task → R → R × Enqueued))
      (ctx_err : String → Option String) (job_ids : String → String) (m : DocumentMeta)
      (r : Running R)
      → Holds r
      → Holds (sync_document searcher hashing others conn enqueuer ctx_err job_ids now kb m r)
  unfolding sync_document Holds
  sync_document-Holds conn enqueuer ctx_err job_ids m r h = elim (Option-cases r.stopped) [
    | inr (_, e) ↦ rw (sync_document, e) h
    | inl e ↦ elim (Option-cases (ctx_err m.id)) [
      | inr (_, c) ↦ rw (sync_document, e, c) h
      | inl c ↦
          let v = beset others (visiting m.id) r in
          let held = by_others (visiting m.id) r.world h in
          elim (Bool-cases (
            is_unchanged searcher hashing m
              (get_document (doc_id searcher hashing kb m.id) v.world.store))) [
                | inl u ↦ rw (sync_document, e, c, u) held
                | inr u ↦
                    rw (sync_document, e, c, u)
                      (fetch-Holds enqueuer (job_ids m.id) m (conn.fetch_document m.id) v held)
              ]
    ]
  ]

  dropped-Holds :
      (doc : KbDocument) (r : Running R) (e : R × Result String (Unit {0}))
      → Holds r
      → Holds (dropped doc r e)
  unfolding Holds
  dropped-Holds doc r (_, err _) h = h
  dropped-Holds doc r (_, ok _) h = by_delete doc.id r.world.store h

  drop_document-Holds :
      (owns : String → Bool) (current : List String) (doc : KbDocument) (r : Running R)
      → Holds r
      → Holds (drop_document searcher hashing others owns current kb doc r)
  unfolding drop_document Holds
  drop_document-Holds owns current doc r h = elim (Option-cases r.stopped) [
    | inr (_, e) ↦ rw (drop_document, e) h
    | inl e ↦
        elim (Bool-cases (not (doc.source_type == "connector") || not (owns doc.source_uri))) [
          | inl o ↦ rw (drop_document, e, o) h
          | inr o ↦ elim (Bool-cases (contains current doc.source_uri)) [
            | inl c ↦ rw (drop_document, e, o, c) h
            | inr c ↦
                let v = beset others (dropping doc.id) r in
                rw (drop_document, e, o, c)
                  (dropped-Holds doc v (searcher.remove_document kb doc.id v.world.index)
                    (by_others (dropping doc.id) r.world h))
          ]
        ]
  ]

  drop_missing-Holds :
      (conn : Connector) (metas : List DocumentMeta) (r : Running R)
      → Holds r
      → Holds (drop_missing searcher hashing others conn kb metas r)
  unfolding drop_missing
  drop_missing-Holds conn metas r h = elim (Option-cases conn.owns_source) [
    | inl e ↦ rw (drop_missing, e) h
    | inr (owns, e) ↦
        rw (drop_missing, e)
          (for_each-keeps Holds (drop_document searcher hashing others owns (ids_of metas) kb)
            (drop_document-Holds owns (ids_of metas)) (list_documents kb r.world.store) r h)
  ]

  -- From the store as it is after the check for a reindex to the end.
  pub synced-Kept :
      (conn : Connector) (enqueuer : Option (Task → R → R × Enqueued))
      (ctx_err : String → Option String) (job_ids : String → String) (metas : List DocumentMeta)
      (r : Running R)
      → I r.world.store
      → I
          (activate_after searcher hashing others now kb (
            for_each
              (sync_document searcher hashing others conn enqueuer ctx_err job_ids now kb)
              metas
              (drop_missing searcher hashing others conn kb metas r))).world.store
  unfolding activate_after Holds
  synced-Kept conn enqueuer ctx_err job_ids metas r h =
      let v =
        for_each (sync_document searcher hashing others conn enqueuer ctx_err job_ids now kb) metas
          (drop_missing searcher hashing others conn kb metas r) in
      let before =
        for_each-keeps Holds
          (sync_document searcher hashing others conn enqueuer ctx_err job_ids now kb)
          (sync_document-Holds conn enqueuer ctx_err job_ids) metas
          (drop_missing searcher hashing others conn kb metas r)
          (drop_missing-Holds conn metas r h) in
      let u = beset others ending v in
      let kept_on = by_others ending v.world before in
      let (s, a) = activate_kb_if_ready now kb searcher.identity u.world.store in
      elim (Option-cases v.stopped) [
        | inr (_, e) ↦ rw (activate_after, e) before
        | inl e ↦ elim (Result-cases a) [
          | inl (_, f) ↦
              rw (activate_after, e, f)
                (kept.by_activation now kb searcher.identity u.world.store kept_on)
          | inr (_, f) ↦
              rw (activate_after, e, f)
                (kept.by_activation now kb searcher.identity u.world.store kept_on)
        ]
      ]
