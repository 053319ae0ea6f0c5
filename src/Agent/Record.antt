-- ===== src/Agent/Record.antt =====
-- The structs of internal/domain/domain.go that the agent store holds. A `time.Time` is in nanoseconds,
-- its zero value 0.
use ecommerce_ops_agent.Base.{ℕ, String, List, Option}
use ecommerce_ops_agent.Base.Int.{ℤ}

pub record Agent : Type 0 where
  pub id : String
  pub workspace_id : String
  pub name : String
  pub template : String
  pub created_by : String
  pub created_at : ℕ
  pub updated_at : ℕ

pub record AgentVersion : Type 0 where
  pub id : String
  pub agent_id : String
  pub version : ℕ
  pub snapshot_json : String
  pub created_by : String
  pub created_at : ℕ

pub record Conversation : Type 0 where
  pub id : String
  pub agent_id : String
  pub agent_version_id : String
  pub workspace_id : String
  pub user_id : String
  pub status : String
  pub classification : String
  pub runtime_config_json : String
  pub started_at : ℕ
  pub updated_at : ℕ

pub record ToolCall : Type 0 where
  pub id : String
  pub message_id : String
  pub tool_id : String
  pub tool_version_id : String
  pub args : String
  pub result : Option String
  pub error : Option String
  pub latency_ms : ℤ
  pub created_at : ℕ

pub record Message : Type 0 where
  pub id : String
  pub conversation_id : String
  pub role : String
  pub content : String
  pub tool_calls : List ToolCall
  pub tool_call_id : Option String
  pub created_at : ℕ
