-- ===== src/Middleware/Auth.antt =====
-- internal/api/middleware/auth.go over the service of internal/platform/iam. Parameter: the validation of
-- a token, which gives the claims' user. What a middleware puts into the context is a record; a key
-- that is not in the context is an empty text.
pub mod Access
pub mod Examples
use Prim.Native.String.{len, slice}
use text.Mathlib.Text.{starts_with, find?}
use ecommerce_ops_agent.Base.{
  ℕ, ◌-◌, String, Bool, true, false, ◌&&◌, ◌||◌, not, Option, none, some, Result, ok, err,
  if◌then◌else◌, ◌==◌, string_eq, leb,
}
use ecommerce_ops_agent.Iam.Record.{
  User, global_role_admin, workspace_role_owner, workspace_role_admin, workspace_role_editor,
  workspace_role_viewer,
}
use ecommerce_ops_agent.Iam.Store.{Store, get_user_by_id}
use ecommerce_ops_agent.Iam.Service.{workspace_role}

pub record Request : Type 0 where
  pub authorization : String
  pub workspace_header : String
  pub workspace_query : String
  pub method : String
  pub path : String

pub record Context : Type 0 where
  pub user_id : String
  pub global_role : String
  pub workspace_id : String
  pub workspace_role_name : String

-- The status and the text of `http.Error`.
pub record Denied : Type 0 where
  pub status : ℕ
  pub message : String

abbrev deny : ℕ → String → Result Denied Context
deny status message = err (record { status = status; message = message })

abbrev pub empty_context : Context
empty_context = record {
  user_id = "";
  global_role = "";
  workspace_id = "";
  workspace_role_name = "";
}

abbrev bearer_prefix : String
bearer_prefix = "Bearer "

-- `authHeader[len(bearerPrefix):]`.
abbrev pub token_of : String → String
token_of header = slice header (len bearer_prefix) (len header)

unfoldable pub auth : (String → Option String) → Request → Context → Store → Result Denied Context
auth validate_token r ctx s =
    if r.authorization == ""
    then deny 401 "missing authorization header"
    else if not (starts_with r.authorization bearer_prefix)
    then deny 401 "invalid authorization format"
    else elim (validate_token (token_of r.authorization)) [
      | none ↦ deny 401 "invalid token"
      | some id ↦ elim (get_user_by_id id s) [
        | err _ ↦ deny 401 "user account is unavailable"
        | ok user ↦
            if not (user.status == "active")
            then deny 401 "user account is unavailable"
            else ok (record ctx { user_id = id; global_role = user.role })
      ]
    ]

unfoldable pub workspace_optional_path : String → Bool
workspace_optional_path path =
    path == "/api/v1/auth/register"
    || (path == "/api/v1/users"
        || (path == "/api/v1/workspaces"
            || (path == "/api/v1/me"
                || (path == "/api/v1/observability" || starts_with path "/api/v1/workspaces/"))))

abbrev is_some : Option ℕ → Bool
is_some none = false
is_some (some _) = true

-- `strings.Contains` and `strings.HasSuffix`.
pub contains_text : String → String → Bool
contains_text s t = is_some (find? s t)

pub has_suffix : String → String → Bool
has_suffix s t = leb (len t) (len s) && slice s (len s - len t) (len s) == t

unfoldable pub workspace_method_allowed : String → String → String → Bool
workspace_method_allowed role method path =
    if not (method == "GET") && contains_text path "/approvals/"
    then role == workspace_role_owner || role == workspace_role_admin
    else if role == workspace_role_owner
        || (role == workspace_role_admin || role == workspace_role_editor)
    then true
    else if method == "GET" || method == "HEAD"
    then true
    else if role == workspace_role_viewer
    then false
    else has_suffix path "/chat"
      || (has_suffix path "/search" || (has_suffix path "/runs" || contains_text path "/stream/"))

abbrev pub workspace_id_of : Request → String
workspace_id_of r = if r.workspace_header == "" then r.workspace_query else r.workspace_header

unfoldable pub workspace : Request → Context → Store → Result Denied Context
unfolding workspace_role workspace_optional_path workspace_method_allowed
workspace r ctx s =
    let id = workspace_id_of r in
    if id == ""
    then if workspace_optional_path r.path then ok ctx else deny 400 "workspace id is required"
    else elim (workspace_role ctx.user_id id s) [
      | err _ ↦ deny 403 "workspace access denied"
      | ok role ↦
          if not (workspace_method_allowed role r.method r.path)
          then deny 403 "workspace role does not allow this action"
          else ok (record ctx { workspace_id = id; workspace_role_name = role })
    ]

unfoldable pub require_global_admin : Context → Result Denied Context
require_global_admin ctx =
    if not (ctx.global_role == global_role_admin)
    then deny 403 "global admin role required"
    else ok ctx

abbrev then_workspace : Request → Store → Result Denied Context → Result Denied Context
then_workspace r s (err e) = err e
then_workspace r s (ok ctx) = workspace r ctx s

-- The chain of the router: `Auth`, then `Workspace`.
unfoldable pub admitted : (String → Option String) → Request → Store → Result Denied Context
unfolding auth workspace
admitted validate_token r s = then_workspace r s (auth validate_token r empty_context s)
