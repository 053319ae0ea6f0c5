-- ===== src/Iam/Store.antt =====
-- `MemoryIAMStore` of internal/platform/memory_store.go. A method under the mutex is a function to the
-- new store and its result; the clock is an argument. No caller writes to a record it was handed.
pub mod Owners
pub mod Writes
use ecommerce_ops_agent.Base.{
  ℕ, suc, String, List, [], ◌∷◌, Bool, true, false, ◌&&◌, ◌||◌, not, Option, none, some, Result, ok,
  err, if◌then◌else◌, ◌==◌, string_eq, nat_eq, leb,
}
use ecommerce_ops_agent.Base.Dict.{Dict, lookup, insert, erase, values}
use ecommerce_ops_agent.Iam.Record.{
  User, Workspace, WorkspaceMember, Error, user_not_found, workspace_not_found, member_not_found,
  forbidden, last_owner, global_role_member, workspace_role_owner,
}

abbrev pub Members : Type 0
Members = Dict String WorkspaceMember

pub record Store : Type 0 where
  pub users : Dict String User
  pub workspaces : Dict String Workspace
  pub members : Dict String Members

pub new_memory_store : Store
new_memory_store = record { users = []; workspaces = []; members = [] }

first_with_email : String → List User → Option User
first_with_email email [] = none
first_with_email email (u ∷ us) = if u.email == email then some u else first_with_email email us

pub get_user_by_email : String → Store → Result Error User
unfolding first_with_email
get_user_by_email email s = elim (first_with_email email (values s.users)) [
  | none ↦ err user_not_found
  | some u ↦ ok u
]

unfoldable pub get_user_by_id : String → Store → Result Error User
get_user_by_id id s = elim (lookup id s.users) [ none ↦ err user_not_found | some u ↦ ok u ]

unfoldable pub get_workspace_by_id : String → Store → Result Error Workspace
get_workspace_by_id id s = elim (lookup id s.workspaces) [
  | none ↦ err workspace_not_found
  | some w ↦ ok w
]

-- The user as stored, which the caller's record is set to as well.
unfoldable pub create_user : User → Store → Store × User
create_user user s =
    let cp = record user { role = if user.role == "" then global_role_member else user.role } in
    (record s { users = insert user.id cp s.users }, cp)

unfoldable pub set_user_role : ℕ → String → String → Store → Store × Result Error (Unit {0})
set_user_role now id role s = elim (lookup id s.users) [
  | none ↦ (s, err user_not_found)
  | some u ↦
      (record s { users = insert id (record u { role = role; updated_at = now }) s.users }, ok tt)
]

unfoldable pub create_workspace : Workspace → Store → Store
create_workspace w s = record s { workspaces = insert w.id w s.workspaces }

abbrev pub owner_member : ℕ → String → String → WorkspaceMember
owner_member now workspace user = record {
  workspace_id = workspace;
  user_id = user;
  email = "";
  name = "";
  role = workspace_role_owner;
  created_at = now;
}

unfoldable pub create_workspace_with_owner :
    ℕ → Workspace → String → Store → Store × Result Error (Unit {0})
create_workspace_with_owner now w user s = elim (lookup user s.users) [
  | none ↦ (s, err user_not_found)
  | some u ↦ (
    record s {
      workspaces = insert w.id w s.workspaces;
      members = insert w.id ((user, owner_member now w.id user) ∷ []) s.members;
    },
    ok tt,
  )
]

-- `s.members[workspaceID]`, where a missing map reads as an empty one.
abbrev or_empty : Option Members → Members
or_empty none = []
or_empty (some d) = d

abbrev pub members_of : String → Store → Members
members_of workspace s = or_empty (lookup workspace s.members)

abbrev pub named : Option User → WorkspaceMember → WorkspaceMember
named none m = m
named (some u) m = record m { email = u.email; name = u.name }

unfoldable pub get_workspace_member : String → String → Store → Result Error WorkspaceMember
get_workspace_member workspace user s = elim (lookup user (members_of workspace s)) [
  | none ↦ err member_not_found
  | some m ↦ ok (named (lookup user s.users) m)
]

abbrev pub is_owner : WorkspaceMember → Bool
is_owner m = m.role == workspace_role_owner

abbrev pub holds_owner : Option WorkspaceMember → Bool
holds_owner none = false
holds_owner (some m) = is_owner m

-- The loop that counts owners.
unfoldable pub owners : Members → ℕ
owners [] = 0
owners ((_, m) ∷ d) = let rest = owners d in if is_owner m then suc rest else rest

-- `make(map[string]*domain.WorkspaceMember)` where there is none.
pub with_room : String → Store → Store
with_room workspace s = elim (lookup workspace s.members) [
  | none ↦ record s { members = insert workspace [] s.members }
  | some d ↦ s
]

abbrev put_members : String → Members → Store → Store
put_members workspace d s = record s { members = insert workspace d s.members }

-- What is stored: the role only, where there is a member already.
abbrev written : ℕ → WorkspaceMember → Option WorkspaceMember → WorkspaceMember
written now m (some existing) = record existing { role = m.role }
written now m none = record m { created_at = if m.created_at == 0 then now else m.created_at }

pub put_member : ℕ → WorkspaceMember → Store → Store
put_member now m s =
    let d = members_of m.workspace_id s in
    put_members m.workspace_id (insert m.user_id (written now m (lookup m.user_id d)) d) s

-- The check, common to both upserts, that the workspace and the user are there.
unfoldable pub known : String → String → Store → Result Error (Unit {0})
known workspace user s = elim (lookup workspace s.workspaces) [
  | none ↦ err workspace_not_found
  | some w ↦ elim (lookup user s.users) [ none ↦ err user_not_found | some u ↦ ok tt ]
]

unfoldable pub upsert_workspace_member :
    ℕ → WorkspaceMember → Store → Store × Result Error (Unit {0})
unfolding known put_member with_room
upsert_workspace_member now m s = elim (known m.workspace_id m.user_id s) [
  | err e ↦ (s, err e)
  | ok _ ↦ (put_member now m (with_room m.workspace_id s), ok tt)
]

unfoldable pub delete_workspace_member : String → String → Store → Store × Bool
delete_workspace_member workspace user s = elim (lookup user (members_of workspace s)) [
  | none ↦ (s, false)
  | some m ↦ (put_members workspace (erase user (members_of workspace s)) s, true)
]

-- The guards of `UpsertWorkspaceMemberGuarded`, in their order.
unfoldable pub upsert_in : ℕ → WorkspaceMember → Bool → Store → Store × Result Error (Unit {0})
upsert_in now m allow s =
    let d = members_of m.workspace_id s in
    let was = holds_owner (lookup m.user_id d) in
    if (is_owner m || was) && not allow
    then (s, err forbidden)
    else if (was && not (is_owner m)) && leb (owners d) 1
    then (s, err last_owner)
    else (put_member now m s, ok tt)

unfoldable pub upsert_workspace_member_guarded :
    ℕ → WorkspaceMember → Bool → Store → Store × Result Error (Unit {0})
unfolding known
upsert_workspace_member_guarded now m allow s = elim (known m.workspace_id m.user_id s) [
  | err e ↦ (s, err e)
  | ok _ ↦ upsert_in now m allow (with_room m.workspace_id s)
]

unfoldable pub delete_workspace_member_guarded :
    String → String → Bool → Store → Store × Result Error Bool
delete_workspace_member_guarded workspace user allow s =
    let d = members_of workspace s in
    elim (lookup user d) [
      | none ↦ (s, ok false)
      | some m ↦
          if is_owner m && not allow
          then (s, err forbidden)
          else if is_owner m && leb (owners d) 1
          then (s, err last_owner)
          else (put_members workspace (erase user d) s, ok true)
    ]
