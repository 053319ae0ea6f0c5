-- ===== src/Middleware/Auth/Examples.antt =====
-- An administrator of a workspace decides on an approval.
use ecommerce_ops_agent.Base.{
  ◌≡◌, ◌≢◌, ◌⊎◌, refl, String, Option, some, ok, true, arith, string_eq, ◌||◌,
}
use text.Mathlib.TextEquality.{eq_iff}
use ecommerce_ops_agent.Base.Dict.{lookup}
use ecommerce_ops_agent.Iam.Record.{User}
use ecommerce_ops_agent.Iam.Store.{get_user_by_id, get_workspace_member}
use ecommerce_ops_agent.Iam.Service.{workspace_role, is_active}
use ecommerce_ops_agent.Iam.Service.Examples.{shop}
use ecommerce_ops_agent.Middleware.Auth.{
  Request, Context, admitted, token_of, contains_text, has_suffix, workspace_method_allowed,
}
use ecommerce_ops_agent.Middleware.Auth.Access.{
  IsOutside, IsInside, admitted-IsInside, admitted-allowed,
}

abbrev decide : Request
decide = record {
  authorization = "Bearer t1";
  workspace_header = "w1";
  workspace_query = "";
  method = "POST";
  path = "/api/v1/approvals/a1";
}

-- One token is valid, and it is adam's.
abbrev validate : String → Option String
validate _ = some "adam"

abbrev entered : Context
entered = record {
  user_id = "adam";
  global_role = "member";
  workspace_id = "w1";
  workspace_role_name = "admin";
}

passes : admitted validate decide shop ≡ ok entered
unfolding admitted workspace_role is_active get_user_by_id get_workspace_member
    workspace_method_allowed contains_text lookup string_eq
passes = refl

admitted-IsInside_example :
    (user : User) × (validate (token_of decide.authorization) ≡ some entered.user_id)
    × (lookup entered.user_id shop.users ≡ some user)
    × (user.status ≡ "active")
    × (entered.global_role ≡ user.role)
    × (IsOutside decide entered ⊎ IsInside decide user entered shop)
admitted-IsInside_example = admitted-IsInside validate decide shop entered passes

named : entered.workspace_id ≢ ""
named = ground (arith, eq_iff "w1" "")

admitted-allowed_example :
    (entered.workspace_role_name ≡ "viewer" → (decide.method ≡ "GET") ⊎ (decide.method ≡ "HEAD"))
    × (decide.method ≢ "GET"
        → contains_text decide.path "/approvals/" ≡ true
        → (entered.workspace_role_name ≡ "owner") ⊎ (entered.workspace_role_name ≡ "admin"))
    × (entered.workspace_role_name ≡ "member"
        → decide.method ≢ "GET"
        → decide.method ≢ "HEAD"
        → (has_suffix decide.path "/chat"
            || (has_suffix decide.path "/search"
                || (has_suffix decide.path "/runs" || contains_text decide.path "/stream/")))
          ≡ true)
admitted-allowed_example = admitted-allowed validate decide shop entered passes named
