-- ===== src/Iam/Service.antt =====
-- internal/platform/iam/service.go over the in-memory store, which has the guarded writes. The
-- identifiers that `util.GenerateID` makes and the clock are arguments. The service wraps some
-- errors of the store in a text; here each is its cause.
pub mod Authority
pub mod History
pub mod Fallback
pub mod Examples
use ecommerce_ops_agent.Base.{
  ℕ, String, List, [], ◌∷◌, Bool, true, false, ◌&&◌, ◌||◌, not, Option, none, some, Result, ok, err,
  ◌>>=◌, if◌then◌else◌, ◌==◌, string_eq, leb, contains,
}
use ecommerce_ops_agent.Base.Dict.{lookup}
use ecommerce_ops_agent.Iam.Record.{
  User, Workspace, WorkspaceMember, Error, forbidden, last_owner, invalid_role, member_not_found,
  global_role_admin, workspace_role_owner, workspace_role_admin, workspace_role_editor,
  workspace_role_member, workspace_role_viewer,
}
use ecommerce_ops_agent.Iam.Store.{
  Store, get_user_by_id, get_workspace_member, members_of, owners, is_owner, holds_owner,
  create_workspace, create_workspace_with_owner, upsert_workspace_member,
  upsert_workspace_member_guarded, delete_workspace_member, delete_workspace_member_guarded,
}

unfoldable pub is_active : User → Bool
is_active u = u.status == "active"

unfoldable pub is_global_admin : String → Store → Result Error Bool
unfolding is_active
is_global_admin id s = do u ← get_user_by_id id s; ok (is_active u && u.role == global_role_admin)

-- The role of a member, where any failure to find one is a refusal.
abbrev role_or_forbidden : Result Error WorkspaceMember → Result Error String
role_or_forbidden (err e) = err forbidden
role_or_forbidden (ok m) = ok m.role

unfoldable pub workspace_role : String → String → Store → Result Error String
workspace_role user workspace s = if workspace == "" || user == "" then err forbidden else do
  u ← get_user_by_id user s
  if not (is_active u)
      then err forbidden
      else if u.role == global_role_admin
      then ok workspace_role_admin
      else role_or_forbidden (get_workspace_member workspace user s)

-- Whether a member of this role manages owners, and whether it manages at all.
unfoldable pub role_authority : String → Result Error Bool
role_authority role =
    if role == workspace_role_owner
    then ok true
    else if role == workspace_role_admin
    then ok false
    else err forbidden

abbrev member_authority : Result Error WorkspaceMember → Result Error Bool
member_authority (err e) = err forbidden
member_authority (ok m) = role_authority m.role

abbrev user_authority : String → String → Store → Result Error User → Result Error Bool
user_authority actor workspace s (err e) = err forbidden
user_authority actor workspace s (ok u) =
    if not (is_active u)
    then err forbidden
    else if u.role == global_role_admin
    then ok true
    else member_authority (get_workspace_member workspace actor s)

unfoldable pub workspace_management_authority : String → String → Store → Result Error Bool
workspace_management_authority actor workspace s =
    if actor == "" || workspace == ""
    then err forbidden
    else user_authority actor workspace s (get_user_by_id actor s)

unfoldable pub can_manage_workspace : String → String → Store → Result Error Bool
can_manage_workspace actor workspace s = do
  role ← workspace_role actor workspace s
  ok (role == workspace_role_owner || role == workspace_role_admin)

unfoldable pub valid_workspace_role : String → Bool
valid_workspace_role role =
    role == workspace_role_owner
    || (role == workspace_role_admin
        || (role == workspace_role_editor
            || (role == workspace_role_member || role == workspace_role_viewer)))

abbrev new_member : ℕ → String → String → String → WorkspaceMember
new_member now workspace user role = record {
  workspace_id = workspace;
  user_id = user;
  email = "";
  name = "";
  role = role;
  created_at = now;
}

-- What follows a write: the error, or a read of the new member.
abbrev then_read :
    String → String → Store × Result Error (Unit {0}) → Store × Result Error WorkspaceMember
then_read workspace user (t, err e) = (t, err e)
then_read workspace user (t, ok _) = (t, get_workspace_member workspace user t)

unfoldable pub upsert_member :
    ℕ → String → String → String → String → Store → Store × Result Error WorkspaceMember
upsert_member now actor workspace user role s =
    elim (workspace_management_authority actor workspace s) [
      | err e ↦ (s, err forbidden)
      | ok manages ↦
          if not (valid_workspace_role role)
          then (s, err (invalid_role role))
          else elim (get_user_by_id user s) [
            | err e ↦ (s, err e)
            | ok u ↦
                then_read workspace user (
                  upsert_workspace_member_guarded now (new_member now workspace user role) manages
                    s)
          ]
    ]

-- The same decision for a store without guarded writes.
unfoldable pub upsert_workspace_member_fallback :
    ℕ → WorkspaceMember → Bool → Store → Store × Result Error (Unit {0})
upsert_workspace_member_fallback now m manages s =
    let d = members_of m.workspace_id s in
    let was = holds_owner (lookup m.user_id d) in
    if is_owner m && not manages
    then (s, err forbidden)
    else if was && not manages
    then (s, err forbidden)
    else if (was && not (is_owner m)) && leb (owners d) 1
    then (s, err last_owner)
    else upsert_workspace_member now m s

abbrev deleted_or_missing : Store × Result Error Bool → Store × Result Error (Unit {0})
deleted_or_missing (t, err e) = (t, err e)
deleted_or_missing (t, ok false) = (t, err member_not_found)
deleted_or_missing (t, ok true) = (t, ok tt)

unfoldable pub delete_member : String → String → String → Store → Store × Result Error (Unit {0})
delete_member actor workspace user s = elim (workspace_management_authority actor workspace s) [
  | err e ↦ (s, err forbidden)
  | ok manages ↦ deleted_or_missing (delete_workspace_member_guarded workspace user manages s)
]

abbrev pub workspace_of : ℕ → String → String → String → Option String → Workspace
workspace_of now id name description parent = record {
  id = id;
  name = name;
  description = description;
  parent_id = parent;
  created_at = now;
  updated_at = now;
}

-- The workspace goes back to the caller with the store.
unfoldable pub create_workspace_plain :
    ℕ → String → String → String → Option String → Store → Store × Workspace
create_workspace_plain now id name description parent s =
    let w = workspace_of now id name description parent in (create_workspace w s, w)

abbrev with_workspace : Workspace → Store × Result Error (Unit {0}) → Store × Result Error Workspace
with_workspace w (t, err e) = (t, err e)
with_workspace w (t, ok _) = (t, ok w)

unfoldable pub create_workspace_for_user :
    ℕ → String → String → String → String → Option String → Store → Store × Result Error Workspace
create_workspace_for_user now id actor name description parent s =
    let w = workspace_of now id name description parent in
    with_workspace w (create_workspace_with_owner now w actor s)
