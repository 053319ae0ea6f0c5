-- ===== src/Iam/Service/Fallback.antt =====
-- The guarded upsert of the store against the service's own decision for a store without one.
use ecommerce_ops_agent.Base.{ℕ, ◌≡◌, String, Bool, some, arith, string_eq}
use ecommerce_ops_agent.Base.Dict.{lookup}
use ecommerce_ops_agent.Iam.Record.{User, Workspace, WorkspaceMember}
use ecommerce_ops_agent.Iam.Store.{
  Store, members_of, known, upsert_in, upsert_workspace_member, upsert_workspace_member_guarded,
}
use ecommerce_ops_agent.Iam.Store.Writes.{members_of-with_room}
use ecommerce_ops_agent.Iam.Service.{upsert_workspace_member_fallback}

-- For a workspace and a user that exist, the two ways to write a member agree: they give the same
-- answer, errors included, and leave the same members in every workspace.
pub guarded_iff_fallback :
    (now : ℕ) (m : WorkspaceMember) (manages : Bool) (s : Store) (workspace : Workspace)
    (user : User) (w : String)
    → lookup m.workspace_id s.workspaces ≡ some workspace
    → lookup m.user_id s.users ≡ some user
    → ((upsert_workspace_member_guarded now m manages s).1
        ≡ (upsert_workspace_member_fallback now m manages s).1)
      × (members_of w (upsert_workspace_member_guarded now m manages s).0
          ≡ members_of w (upsert_workspace_member_fallback now m manages s).0)
unfolding upsert_workspace_member_guarded upsert_workspace_member_fallback upsert_workspace_member
    upsert_in known
guarded_iff_fallback now m manages s workspace user w found there = (
  ground (arith, members_of-with_room m.workspace_id m.workspace_id s),
  ground (
    arith,
    members_of-with_room w m.workspace_id s,
    members_of-with_room m.workspace_id m.workspace_id s,
  ),
)
