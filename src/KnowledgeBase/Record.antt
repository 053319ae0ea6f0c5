-- ===== src/KnowledgeBase/Record.antt =====
-- The structs of internal/domain/domain.go that the knowledge base store holds. A `time.Time` is in
-- nanoseconds, its zero value 0; a pointer that may be nil is an option.
use ecommerce_ops_agent.Base.{ℕ, String, Option}

pub record KnowledgeBase : Type 0 where
  pub id : String
  pub workspace_id : String
  pub name : String
  pub chunking_config : String
  pub embedding_model : String
  pub status : String
  pub created_by : String
  pub created_at : ℕ
  pub updated_at : ℕ

pub record KbDocument : Type 0 where
  pub id : String
  pub kb_id : String
  pub source_type : String
  pub source_uri : String
  pub hash : String
  pub embedding_identity : String
  pub classification : String
  pub status : String
  pub ingested_at : Option ℕ
  pub created_at : ℕ

pub record KbIngestJob : Type 0 where
  pub id : String
  pub kb_id : String
  pub doc_id : String
  pub stage : String
  pub retries : ℕ
  pub error : Option String
  pub started_at : ℕ
  pub finished_at : Option ℕ

pub record ConnectorInstance : Type 0 where
  pub id : String
  pub kb_id : String
  pub connector_kind : String
  pub config_json : String
  pub cursor : String
  pub last_sync_at : Option ℕ
  pub created_at : ℕ
