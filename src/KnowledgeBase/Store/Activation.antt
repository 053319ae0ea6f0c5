-- ===== src/KnowledgeBase/Store/Activation.antt =====
-- When a knowledge base is activated, and which workers may mark a document.
use text.Mathlib.TextEquality.{eq_iff}
use ecommerce_ops_agent.Base.{
  ℕ, ◌≡◌, refl, ◌↔◌, ◌≢◌, ◌⊎◌, String, List, [], ◌∷◌, true, false, All, some, ok, arith, string_eq,
}
use ecommerce_ops_agent.Base.Dict.{lookup, values, lookup-insert_self, lookup-map_values}
use ecommerce_ops_agent.KnowledgeBase.Record.{KnowledgeBase, KbDocument}
use ecommerce_ops_agent.KnowledgeBase.Store.{
  Store, blocks, any_blocks, activate_kb_if_ready, begin_kb_reindex,
  mark_document_status_if_current, reset,
}

pub IsDone : String → String → KbDocument → Type 0
IsDone kb identity doc =
    doc.kb_id ≡ kb → (doc.status ≡ "processed") × (doc.embedding_identity ≡ identity)

blocks-IsDone :
    (kb identity : String) (doc : KbDocument)
    → blocks kb identity doc ≡ false
    → IsDone kb identity doc
unfolding IsDone
blocks-IsDone kb identity doc h own = ground (arith, h, own)

IsDone-blocks :
    (kb identity : String) (doc : KbDocument)
    → IsDone kb identity doc
    → blocks kb identity doc ≡ false
unfolding IsDone
IsDone-blocks kb identity doc done = grind (arith, done)

any_blocks-All :
    (kb identity : String) (docs : List KbDocument)
    → any_blocks kb identity docs ≡ false
    → All (IsDone kb identity) docs
unfolding any_blocks
any_blocks-All kb identity [] h = tt
any_blocks-All kb identity (doc ∷ docs) h = (
  blocks-IsDone kb identity doc (ground (arith, h)),
  any_blocks-All kb identity docs (ground (arith, h)),
)

All-any_blocks :
    (kb identity : String) (docs : List KbDocument)
    → All (IsDone kb identity) docs
    → any_blocks kb identity docs ≡ false
unfolding any_blocks
All-any_blocks kb identity [] h = refl
All-any_blocks kb identity (doc ∷ docs) (here, there) =
    ground (arith, IsDone-blocks kb identity doc here, All-any_blocks kb identity docs there)

-- A knowledge base that exists is activated exactly when the identity asked for is its own and every
-- one of its documents is processed under that identity. It is then active with nothing else of it
-- changed but the time; when it is not activated the store stays as it is.
pub activate-IsDone :
    (now : ℕ) (id identity : String) (s : Store) (base : KnowledgeBase)
    → lookup id s.kbs ≡ some base
    → let r = activate_kb_if_ready now id identity s in
      ((r.1 ≡ ok true)
        ↔ ((base.embedding_model ≡ identity) × All (IsDone id identity) (values s.documents)))
      × (r.1 ≡ ok true
          → lookup id r.0.kbs ≡ some (record base { status = "active"; updated_at = now }))
      × (r.1 ≢ ok true → r.0 ≡ s)
unfolding activate_kb_if_ready
activate-IsDone now id identity s base here =
    let active = record base { status = "active"; updated_at = now } in
    (
      (
        λ done. (
          ground (arith, here, done),
          any_blocks-All id identity (values s.documents) (ground (arith, here, done)),
        ),
        λ (own, all).
            ground (arith, here, own, All-any_blocks id identity (values s.documents) all),
      ),
      λ done. ground (arith, here, done, lookup-insert_self id active s.kbs),
      λ refused. ground (arith, here, refused),
    )

-- A worker that was given another version of a document, or another embedding identity, than the
-- document now has, or a document that is no longer pending or in error, changes nothing.
pub mark-stale :
    (now : ℕ) (id fingerprint identity status : String) (s : Store) (doc : KbDocument)
    → lookup id s.documents ≡ some doc
    → (doc.hash ≢ fingerprint) ⊎ ((doc.embedding_identity ≢ identity) ⊎ (doc.status ≡ "processed"))
    → mark_document_status_if_current now id fingerprint identity status s ≡ (s, false)
unfolding mark_document_status_if_current
mark-stale now id fingerprint identity status s doc here stale =
    ground (arith, here, stale, eq_iff "processed" "pending", eq_iff "processed" "error")

-- A reindex resets every document of the knowledge base to pending under the new identity, so that a
-- worker of another identity no longer marks any, and leaves every other document as it is.
pub reindex_invalidates :
    (now later : ℕ) (kb id fingerprint old new status : String) (s : Store) (base : KnowledgeBase)
    (doc : KbDocument)
    → lookup kb s.kbs ≡ some base
    → lookup id s.documents ≡ some doc
    → old ≢ new
    → let t = (begin_kb_reindex now kb new s).0 in
      (doc.kb_id ≡ kb
        → mark_document_status_if_current later id fingerprint old status t ≡ (t, false))
      × (doc.kb_id ≢ kb → lookup id t.documents ≡ some doc)
unfolding begin_kb_reindex mark_document_status_if_current reset
reindex_invalidates now later kb id fingerprint old new status s base doc here at differs =
    let read = lookup-map_values (reset kb new) id s.documents in
    (λ own. ground (arith, read), λ foreign. ground (arith, read))
