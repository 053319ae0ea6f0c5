-- ===== src/Tool/Record.antt =====
-- The structs of internal/domain/domain.go that the store of tools holds. A `time.Time` is in
-- nanoseconds, its zero value 0; a slice of bytes is a list of numbers.
use ecommerce_ops_agent.Base.{ℕ, String, List, Bool, Option}
use ecommerce_ops_agent.Base.Int.{ℤ}

pub record Tool : Type 0 where
  pub id : String
  pub workspace_id : String
  pub name : String
  pub source_type : String
  pub description : String
  pub sensitive : Bool
  pub created_by : String
  pub created_at : ℕ
  pub updated_at : ℕ

pub record ToolVersion : Type 0 where
  pub id : String
  pub tool_id : String
  pub version : ℕ
  pub schema_json : String
  pub endpoint_config : String
  pub auth_config : String
  pub auth_config_encrypted : List ℕ
  pub has_auth : Bool
  pub retry_policy : String
  pub status : String
  pub created_by : String
  pub created_at : ℕ

pub record ToolTestRun : Type 0 where
  pub id : String
  pub tool_id : String
  pub tool_version_id : String
  pub input : String
  pub output : String
  pub status : String
  pub latency_ms : ℤ
  pub error : Option String
  pub created_at : ℕ

pub record ToolInvocation : Type 0 where
  pub id : String
  pub workspace_id : String
  pub conversation_id : String
  pub tool_call_id : String
  pub tool_version_id : String
  pub args : String
  pub result : String
  pub status : String
  pub latency_ms : ℤ
  pub error : String
  pub created_at : ℕ
