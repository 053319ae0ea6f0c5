-- ===== src/Iam/Record.antt =====
-- The structs of internal/domain/domain.go and the roles of internal/platform/iam/service.go. A
-- `time.Time` is in nanoseconds, its zero value 0.
use ecommerce_ops_agent.Base.{ℕ, String, Option}

abbrev pub global_role_admin : String
global_role_admin = "admin"

abbrev pub global_role_member : String
global_role_member = "member"

abbrev pub workspace_role_owner : String
workspace_role_owner = "owner"

abbrev pub workspace_role_admin : String
workspace_role_admin = "admin"

abbrev pub workspace_role_editor : String
workspace_role_editor = "editor"

abbrev pub workspace_role_member : String
workspace_role_member = "member"

abbrev pub workspace_role_viewer : String
workspace_role_viewer = "viewer"

pub record User : Type 0 where
  pub id : String
  pub email : String
  pub name : String
  pub role : String
  pub password_hash : String
  pub status : String
  pub created_at : ℕ
  pub updated_at : ℕ

pub record WorkspaceMember : Type 0 where
  pub workspace_id : String
  pub user_id : String
  pub email : String
  pub name : String
  pub role : String
  pub created_at : ℕ

pub record Workspace : Type 0 where
  pub id : String
  pub name : String
  pub description : String
  pub parent_id : Option String
  pub created_at : ℕ
  pub updated_at : ℕ

pub data Error : Type 0 where
  user_not_found workspace_not_found member_not_found forbidden last_owner : Error
  invalid_role : String → Error
