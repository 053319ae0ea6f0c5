-- ===== src/KnowledgeBase/Service.antt =====
-- internal/platform/kb/service.go over the in-memory store: creating a knowledge base, who may use it,
-- and searching it. The retriever's searches are parameters: `P` is the type of a passage.
pub mod History
pub mod Examples
use ecommerce_ops_agent.Base.{
  ℕ, String, ◌<>◌, List, Bool, true, false, ◌||◌, not, Option, none, some, Result, ok, err,
  if◌then◌else◌, ◌==◌, string_eq, ◌>>=◌,
}
use ecommerce_ops_agent.Base.Int.{ℤ}
use ecommerce_ops_agent.KnowledgeBase.Record.{KnowledgeBase, ConnectorInstance}
use ecommerce_ops_agent.KnowledgeBase.Store.{Store, get_kb, create_kb, upsert_connector}
use ecommerce_ops_agent.KnowledgeBase.Sync.{chunking_config}

pub data ServiceError : Type 0 where
  kb_not_found other_workspace : ServiceError
  indexing search_failed : String → ServiceError

pub record CreateKbRequest : Type 0 where
  pub workspace_id : String
  pub name : String
  pub created_by : String

pub new_kb : ℕ → String → String → CreateKbRequest → KnowledgeBase
new_kb now id identity req = record {
  id = id;
  workspace_id = req.workspace_id;
  name = req.name;
  chunking_config = chunking_config;
  embedding_model = identity;
  status = "active";
  created_by = req.created_by;
  created_at = now;
  updated_at = now;
}

-- `identity` is the embedder's.
pub create_knowledge_base : ℕ → String → String → CreateKbRequest → Store → Store × KnowledgeBase
unfolding new_kb create_kb
create_knowledge_base now id identity req s =
    let kb = new_kb now id identity req in (create_kb kb s, kb)

-- The knowledge base, or the error of a missing one.
found_kb : String → Store → Result ServiceError KnowledgeBase
unfolding get_kb
found_kb id s = elim (get_kb id s) [ err _ ↦ err kb_not_found | ok kb ↦ ok kb ]

pub kb_exists : String → String → Store → Result ServiceError Bool
unfolding found_kb
kb_exists workspace id s = found_kb id s >>= (λ base. ok (base.workspace_id == workspace))

pub ensure_kb_workspace : String → String → Store → Result ServiceError (Unit {0})
unfolding found_kb
ensure_kb_workspace id workspace s = found_kb id s >>= (λ base.
    if workspace == "" || not (base.workspace_id == workspace) then err other_workspace else ok tt)

-- `quoted` is Go's `%q`.
pub add_markdown_folder :
    (String → String)
    → ℕ
    → String
    → String
    → String
    → Store
    → Store × Result ServiceError ConnectorInstance
unfolding found_kb
add_markdown_folder quoted now id kb root s = elim (found_kb kb s) [
  | err e ↦ (s, err e)
  | ok _ ↦
      let ci : ConnectorInstance = record {
        id = id;
        kb_id = kb;
        connector_kind = "markdown_folder";
        config_json = "{\"root_path\":" <> (quoted root <> "}");
        cursor = "";
        last_sync_at = none;
        created_at = now;
      } in
      (upsert_connector ci s, ok ci)
]

pub ensure_searchable : String → String → Store → Result ServiceError (Unit {0})
unfolding found_kb
ensure_searchable identity id s = found_kb id s >>= (λ base.
    if not (base.status == "active") || not (base.embedding_model == identity)
    then err (indexing identity)
    else ok tt)

module _ {P : Type 0} (identity : String)
    (find : String → String → ℤ → Result String (List P)) where
  abbrev answer : Result String (List P) → Result ServiceError (List P)
  answer (err e) = err (search_failed e)
  answer (ok ps) = ok ps

  pub search : String → String → ℤ → Store → Result ServiceError (List P)
  unfolding ensure_searchable
  search kb query k s = ensure_searchable identity kb s >>= (λ _. answer (find kb query k))

  -- A retriever without modes answers every mode with its plain search.
  pub search_mode :
      Option (String → String → ℤ → String → Result String (List P))
      → String
      → String
      → ℤ
      → String
      → Store
      → Result ServiceError (List P)
  unfolding ensure_searchable
  search_mode modes kb query k mode s = ensure_searchable identity kb s >>= (λ _. elim modes [
    | some find_mode ↦ answer (find_mode kb query k mode)
    | none ↦ answer (find kb query k)
  ])
