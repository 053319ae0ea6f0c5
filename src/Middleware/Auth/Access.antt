-- ===== src/Middleware/Auth/Access.antt =====
-- Who passes `Auth` and `Workspace`, and what each role may do.
use text.Mathlib.TextEquality.{eq_iff}
use ecommerce_ops_agent.Base.{
  ◌≡◌, ◌≢◌, ◌⊎◌, inl, inr, refl, subst, sym, String, true, ◌||◌, Option, some, ok, arith, string_eq,
  Option-cases, Result-cases, Bool-cases,
}
use ecommerce_ops_agent.Base.Dict.{lookup}
use ecommerce_ops_agent.Iam.Record.{User, WorkspaceMember, global_role_admin, workspace_role_admin}
use ecommerce_ops_agent.Iam.Store.{Store, get_user_by_id, get_workspace_member, members_of}
use ecommerce_ops_agent.Iam.Service.{workspace_role, is_active}
use ecommerce_ops_agent.Middleware.Auth.{
  Request, Context, empty_context, auth, workspace, admitted, token_of, workspace_id_of,
  workspace_optional_path, workspace_method_allowed, contains_text, has_suffix,
}

-- The user is a global administrator, who enters as an administrator, or a member, who enters with the
-- member's role.
pub MayEnter : User → Context → Store → Type 0
MayEnter user ctx s =
    ((user.role ≡ global_role_admin) × (ctx.workspace_role_name ≡ workspace_role_admin))
    ⊎ ((m : WorkspaceMember) × (lookup ctx.user_id (members_of ctx.workspace_id s) ≡ some m)
        × (ctx.workspace_role_name ≡ m.role))

pub IsOutside : Request → Context → Type 0
IsOutside r ctx =
    (ctx.workspace_id ≡ "")
    × (ctx.workspace_role_name ≡ "")
    × (workspace_optional_path r.path ≡ true)

auth_lem :
    (validate_token : String → Option String) (r : Request) (s : Store) (ctx : Context)
    → auth validate_token r empty_context s ≡ ok ctx
    → (user : User) × (validate_token (token_of r.authorization) ≡ some ctx.user_id)
      × (lookup ctx.user_id s.users ≡ some user)
      × (user.status ≡ "active")
      × (ctx.global_role ≡ user.role)
      × (ctx.workspace_id ≡ "")
      × (ctx.workspace_role_name ≡ "")
unfolding auth get_user_by_id
auth_lem validate_token r s ctx passed =
    elim (Option-cases (validate_token (token_of r.authorization))) [
      | inl e ↦ absurd (ground (arith, e, passed))
      | inr (id, e) ↦ elim (Option-cases (lookup id s.users)) [
        | inl f ↦ absurd (ground (arith, e, f, passed))
        | inr (user, f) ↦ (
          user,
          ground (arith, e, f, passed),
          ground (arith, e, f, passed),
          ground (arith, e, f, passed),
          ground (arith, e, f, passed),
          ground (arith, e, f, passed),
          ground (arith, e, f, passed),
        )
      ]
    ]

role_lem :
    (id ws role : String) (s : Store) (user : User)
    → lookup id s.users ≡ some user
    → workspace_role id ws s ≡ ok role
    → ((user.role ≡ global_role_admin) × (role ≡ workspace_role_admin))
      ⊎ ((m : WorkspaceMember) × (lookup id (members_of ws s) ≡ some m) × (role ≡ m.role))
unfolding workspace_role get_user_by_id get_workspace_member is_active
role_lem id ws role s user here given = elim (string_eq.dec user.role global_role_admin) [
  | yes admin ↦ inl (admin, ground (arith, here, given, admin))
  | no other ↦ elim (Option-cases (lookup id (members_of ws s))) [
    | inl e ↦ absurd (ground (arith, here, given, other, e))
    | inr (m, e) ↦ inr (m, e, ground (arith, here, given, other, e))
  ]
]

-- What the second middleware adds to the context of the first.
pub IsInside : Request → User → Context → Store → Type 0
IsInside r user ctx s =
    (ctx.workspace_id ≡ workspace_id_of r)
    × (ctx.workspace_id ≢ "")
    × MayEnter user ctx s
    × (workspace_method_allowed ctx.workspace_role_name r.method r.path ≡ true)

workspace_lem :
    (r : Request) (ctx out : Context) (s : Store) (user : User)
    → lookup ctx.user_id s.users ≡ some user
    → workspace r ctx s ≡ ok out
    → ((out ≡ ctx) × (workspace_optional_path r.path ≡ true))
      ⊎ ((out.user_id ≡ ctx.user_id) × (out.global_role ≡ ctx.global_role) × IsInside r user out s)
unfolding workspace IsInside MayEnter
workspace_lem r ctx out s user here passed = elim (string_eq.dec (workspace_id_of r) "") [
  | yes nowhere ↦ inl (ground (arith, nowhere, passed), ground (arith, nowhere, passed))
  | no somewhere ↦ elim (Result-cases (workspace_role ctx.user_id (workspace_id_of r) s)) [
    | inl (_, e) ↦ absurd (ground (arith, somewhere, passed, e))
    | inr (role, e) ↦ elim (Bool-cases (workspace_method_allowed role r.method r.path)) [
      | inr a ↦ absurd (ground (arith, somewhere, e, a, passed))
      | inl a ↦
          let entered : Context = record ctx {
            workspace_id = workspace_id_of r;
            workspace_role_name = role;
          } in
          let same : entered ≡ out = ground (arith, somewhere, e, a, passed) in
          inr (
            subst
              (λ (o : Context).
                (o.user_id ≡ ctx.user_id) × (o.global_role ≡ ctx.global_role) × IsInside r user o s)
              same
              (
                refl,
                refl,
                (refl, somewhere, role_lem ctx.user_id (workspace_id_of r) role s user here e, a),
              ))
    ]
  ]
]

-- A request that passes both middlewares carries a token that is valid for a user who exists and is
-- active now, and whose global role the context holds. It is either outside all workspaces, on a path
-- that allows it, or inside the workspace that it names, which the user enters as a global
-- administrator or with the role of a membership on record, and whose rules allow that role the method
-- on the path.
pub admitted-IsInside :
    (validate_token : String → Option String) (r : Request) (s : Store) (out : Context)
    → admitted validate_token r s ≡ ok out
    → (user : User) × (validate_token (token_of r.authorization) ≡ some out.user_id)
      × (lookup out.user_id s.users ≡ some user)
      × (user.status ≡ "active")
      × (out.global_role ≡ user.role)
      × (IsOutside r out ⊎ IsInside r user out s)
unfolding admitted IsOutside
admitted-IsInside validate_token r s out passed =
    elim (Result-cases (auth validate_token r empty_context s)) [
      | inl (_, e) ↦ absurd (ground (arith, e, passed))
      | inr (ctx, e) ↦
          let (user, token, here, active, global, unset, no_role) =
            auth_lem validate_token r s ctx e in
          let entered : workspace r ctx s ≡ ok out = ground (arith, e, passed) in
          elim (workspace_lem r ctx out s user here entered) [
            | inl (same, outside) ↦
                subst
                  (λ (o : Context).
                    (u : User) × (validate_token (token_of r.authorization) ≡ some o.user_id)
                    × (lookup o.user_id s.users ≡ some u)
                    × (u.status ≡ "active")
                    × (o.global_role ≡ u.role)
                    × (IsOutside r o ⊎ IsInside r u o s))
                  (sym same) (user, token, here, active, global, inl (unset, no_role, outside))
            | inr (id, role, inside) ↦ (
              user,
              ground (arith, token, id),
              ground (arith, here, id),
              active,
              ground (arith, global, role),
              inr inside,
            )
          ]
    ]

-- A request that is let into a workspace: a viewer only reads, nobody but an owner or an administrator
-- decides on an approval, and a member who writes does so on a path to chat, to search, to run or to
-- stream.
pub admitted-allowed :
    (validate_token : String → Option String) (r : Request) (s : Store) (out : Context)
    → admitted validate_token r s ≡ ok out
    → out.workspace_id ≢ ""
    → (out.workspace_role_name ≡ "viewer" → (r.method ≡ "GET") ⊎ (r.method ≡ "HEAD"))
      × (r.method ≢ "GET"
          → contains_text r.path "/approvals/" ≡ true
          → (out.workspace_role_name ≡ "owner") ⊎ (out.workspace_role_name ≡ "admin"))
      × (out.workspace_role_name ≡ "member"
          → r.method ≢ "GET"
          → r.method ≢ "HEAD"
          → (has_suffix r.path "/chat"
              || (has_suffix r.path "/search"
                  || (has_suffix r.path "/runs" || contains_text r.path "/stream/")))
            ≡ true)
unfolding workspace_method_allowed IsInside IsOutside
admitted-allowed validate_token r s out passed named =
    let (user, _, _, _, _, place) = admitted-IsInside validate_token r s out passed in
    elim place [
      | inl (unset, _, _) ↦ absurd (named unset)
      | inr (_, _, _, allowed) ↦ (
        λ viewer. ground (
          arith,
          allowed,
          viewer,
          eq_iff "viewer" "owner",
          eq_iff "viewer" "admin",
          eq_iff "viewer" "editor",
        ),
        λ writes approvals. ground (arith, allowed, writes, approvals),
        λ member writes unread. ground (
          arith,
          allowed,
          member,
          writes,
          unread,
          eq_iff "member" "owner",
          eq_iff "member" "admin",
          eq_iff "member" "editor",
        ),
      )
    ]
