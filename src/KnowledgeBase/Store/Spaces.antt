-- ===== src/KnowledgeBase/Store/Spaces.antt =====
-- All documents of a knowledge base belong to one vector space: the one its record names.
use ecommerce_ops_agent.Base.{ℕ, ◌≡◌, Option, String, some, none, arith, string_eq}
use ecommerce_ops_agent.Base.Dict.{
  lookup, lookup-insert, lookup-insert_self, lookup-map_values, lookup-erase,
}
use ecommerce_ops_agent.KnowledgeBase.Record.{KnowledgeBase, KbDocument}
use ecommerce_ops_agent.KnowledgeBase.Store.{
  Store, create_kb, update_kb, begin_kb_reindex, activate_kb_if_ready, upsert_document,
  delete_document, mark_document_status_if_current, reset, indexing, marked,
}

abbrev pub model : Option KnowledgeBase → Option String
model none = none
model (some base) = some base.embedding_model

unfoldable pub Uniform : Store → Type 0
Uniform s =
    (id : String) (doc : KbDocument)
    → lookup id s.documents ≡ some doc
    → model (lookup doc.kb_id s.kbs) ≡ some doc.embedding_identity

pub create_kb-Uniform :
    (kb : KnowledgeBase) (s : Store)
    → lookup kb.id s.kbs ≡ none
    → Uniform s
    → Uniform (create_kb kb s)
unfolding Uniform create_kb
create_kb-Uniform kb s fresh u id doc here =
    grind (arith, u id doc here, fresh, λ (k : String). lookup-insert k kb.id kb s.kbs)

-- A write that keeps the identity of the knowledge base.
pub update_kb-Uniform :
    (id : String) (f : KnowledgeBase → KnowledgeBase) (s : Store)
    → ((kb : KnowledgeBase) → (f kb).embedding_model ≡ kb.embedding_model)
    → Uniform s
    → Uniform (update_kb id f s).0
unfolding Uniform update_kb
update_kb-Uniform id f s keeps u d doc here = grind (
  arith,
  u d doc,
  here,
  keeps,
  λ (k : String). λ (kb : KnowledgeBase). lookup-insert k id (f kb) s.kbs,
)

pub begin-Uniform :
    (now : ℕ) (kb identity : String) (s : Store)
    → Uniform s
    → Uniform (begin_kb_reindex now kb identity s).0
unfolding Uniform begin_kb_reindex reset
begin-Uniform now kb identity s u d doc here = grind (
  arith,
  here,
  λ (old : KbDocument). u d old,
  lookup-map_values (reset kb identity) d s.documents,
  λ (k : String). λ (base : KnowledgeBase). lookup-insert k kb (indexing now identity base) s.kbs,
)

pub activate-Uniform :
    (now : ℕ) (kb identity : String) (s : Store)
    → Uniform s
    → Uniform (activate_kb_if_ready now kb identity s).0
unfolding Uniform activate_kb_if_ready
activate-Uniform now kb identity s u id doc here = grind (
  arith,
  here,
  u id doc,
  λ (k : String). λ (b : KnowledgeBase).
      lookup-insert k kb (record b { status = "active"; updated_at = now }) s.kbs,
)

pub upsert-Uniform :
    (doc : KbDocument) (s : Store)
    → model (lookup doc.kb_id s.kbs) ≡ some doc.embedding_identity
    → Uniform s
    → Uniform (upsert_document doc s)
unfolding Uniform upsert_document
upsert-Uniform doc s own u id other here =
    grind (arith, own, here, u id other, lookup-insert id doc.id doc s.documents)

pub delete-Uniform : (id : String) (s : Store) → Uniform s → Uniform (delete_document id s)
unfolding Uniform delete_document
delete-Uniform id s u other doc here =
    ground (arith, here, u other doc, lookup-erase other id s.documents)

pub mark-Uniform :
    (now : ℕ) (id fingerprint identity status : String) (s : Store)
    → Uniform s
    → Uniform (mark_document_status_if_current now id fingerprint identity status s).0
unfolding Uniform mark_document_status_if_current
mark-Uniform now id fingerprint identity status s u d doc here = grind (
  arith,
  here,
  u d doc,
  u id,
  λ (old : KbDocument). lookup-insert d id (marked now status old) s.documents,
)

-- Besides, one knowledge base is of the space asked for.
unfoldable pub InSpace : String → String → Store → Type 0
InSpace kb identity s = Uniform s × (model (lookup kb s.kbs) ≡ some identity)

pub begin-InSpace :
    (now : ℕ) (kb identity : String) (s : Store) (base : KnowledgeBase)
    → lookup kb s.kbs ≡ some base
    → Uniform s
    → InSpace kb identity (begin_kb_reindex now kb identity s).0
unfolding InSpace begin_kb_reindex
begin-InSpace now kb identity s base held u = (
  begin-Uniform now kb identity s u,
  ground (arith, held, lookup-insert_self kb (indexing now identity base) s.kbs),
)

pub activate-InSpace :
    (now : ℕ) (other asked kb identity : String) (s : Store)
    → InSpace kb identity s
    → InSpace kb identity (activate_kb_if_ready now other asked s).0
unfolding InSpace activate_kb_if_ready
activate-InSpace now other asked kb identity s (u, held) = (
  activate-Uniform now other asked s u,
  grind (
    arith,
    held,
    λ (b : KnowledgeBase).
        lookup-insert kb other (record b { status = "active"; updated_at = now }) s.kbs,
  ),
)

pub mark-InSpace :
    (now : ℕ) (id fingerprint asked status kb identity : String) (s : Store)
    → InSpace kb identity s
    → InSpace kb identity (mark_document_status_if_current now id fingerprint asked status s).0
unfolding InSpace mark_document_status_if_current
mark-InSpace now id fingerprint asked status kb identity s (u, held) =
    (mark-Uniform now id fingerprint asked status s u, grind (arith, held))

pub upsert-InSpace :
    (doc : KbDocument) (kb identity : String) (s : Store)
    → doc.kb_id ≡ kb
    → doc.embedding_identity ≡ identity
    → InSpace kb identity s
    → InSpace kb identity (upsert_document doc s)
unfolding InSpace upsert_document
upsert-InSpace doc kb identity s own same (u, held) =
    (upsert-Uniform doc s (ground (arith, own, same, held)) u, held)

pub delete-InSpace :
    (id kb identity : String) (s : Store)
    → InSpace kb identity s
    → InSpace kb identity (delete_document id s)
unfolding InSpace delete_document
delete-InSpace id kb identity s (u, held) = (delete-Uniform id s u, held)
