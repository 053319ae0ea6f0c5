-- ===== src/Iam/Service/Authority.antt =====
-- Who can change the members of a workspace, and whom.
use ecommerce_ops_agent.Base.{
  Option, ℕ, ◌≡◌, refl, String, true, false, none, some, ok, err, arith, string_eq, ◌⊎◌, inl, inr,
  Bool, Option-cases,
}
use ecommerce_ops_agent.Base.Dict.{lookup}
use ecommerce_ops_agent.Iam.Record.{
  User, WorkspaceMember, forbidden, workspace_role_owner, workspace_role_admin, global_role_admin,
}
use ecommerce_ops_agent.Iam.Store.{
  named, Store, members_of, holds_owner, get_user_by_id, get_workspace_member,
}
use ecommerce_ops_agent.Iam.Store.Writes.{guarded_owners, delete_owners}
use ecommerce_ops_agent.Iam.Service.{
  workspace_management_authority, role_authority, member_authority, new_member, upsert_member,
  delete_member, is_active,
}

-- Without the authority to manage a workspace, no member of any workspace is added, changed or
-- removed: the store stays as it is and both requests are refused.
pub outsider_refused :
    (now : ℕ) (actor workspace user role : String) (s : Store)
    → workspace_management_authority actor workspace s ≡ err forbidden
    → (upsert_member now actor workspace user role s ≡ (s, err forbidden))
      × (delete_member actor workspace user s ≡ (s, err forbidden))
unfolding upsert_member delete_member
outsider_refused now actor workspace user role s h = (ground arith, ground arith)

-- The grounds on which an actor manages a workspace, and whether its owners too.
abbrev pub Manages : String → String → Store → Bool → Type 0
Manages actor workspace s owners_too =
    (u : User) × (lookup actor s.users ≡ some u)
    × (u.status ≡ "active")
    × (((u.role ≡ global_role_admin) × (owners_too ≡ true))
        ⊎ ((m : WorkspaceMember) × (lookup actor (members_of workspace s) ≡ some m)
            × (((m.role ≡ workspace_role_owner) × (owners_too ≡ true))
                ⊎ ((m.role ≡ workspace_role_admin) × (owners_too ≡ false)))))

role-named : (o : Option User) (m : WorkspaceMember) → (named o m).role ≡ m.role
role-named none m = refl
role-named (some u) m = refl

member-Manages :
    (actor workspace : String) (s : Store) (u : User) (owners_too : Bool)
    → lookup actor s.users ≡ some u
    → u.status ≡ "active"
    → member_authority (get_workspace_member workspace actor s) ≡ ok owners_too
    → Manages actor workspace s owners_too
unfolding get_workspace_member role_authority
member-Manages actor workspace s u owners_too found active h =
    elim (Option-cases (lookup actor (members_of workspace s))) [
      | inl e ↦ absurd (ground arith)
      | inr (m, e) ↦ elim (string_eq.dec m.role workspace_role_owner) [
        | yes owner ↦ (
          u,
          found,
          active,
          inr (m, e, inl (owner, ground (arith, role-named (lookup actor s.users) m))),
        )
        | no not_owner ↦ (
          u,
          found,
          active,
          inr (
            m,
            e,
            inr (
              ground (arith, role-named (lookup actor s.users) m),
              ground (arith, role-named (lookup actor s.users) m),
            ),
          ),
        )
      ]
    ]

-- Who may manage a workspace: an active user that is an administrator of the platform or, in this
-- workspace, a member in the role of owner or admin; an admin does not manage owners.
pub authority-Manages :
    (actor workspace : String) (s : Store) (owners_too : Bool)
    → workspace_management_authority actor workspace s ≡ ok owners_too
    → Manages actor workspace s owners_too
unfolding workspace_management_authority get_user_by_id is_active
authority-Manages actor workspace s owners_too h = elim (Option-cases (lookup actor s.users)) [
  | inl e ↦ absurd (ground arith)
  | inr (u, e) ↦ elim (string_eq.dec u.role global_role_admin) [
    | yes admin ↦ (u, e, ground arith, inl (admin, ground arith))
    | no other ↦ member-Manages actor workspace s u owners_too e (ground arith) (ground arith)
  ]
]

-- An admin of a workspace, who may not manage owners, cannot make anyone an owner or take ownership
-- from anyone, in any workspace: after either request every member owns what it owned before.
pub admin_keeps_owners :
    (now : ℕ) (actor workspace user role : String) (s : Store) (w u : String)
    → workspace_management_authority actor workspace s ≡ ok false
    → (holds_owner (lookup u (members_of w (upsert_member now actor workspace user role s).0))
        ≡ holds_owner (lookup u (members_of w s)))
      × (holds_owner (lookup u (members_of w (delete_member actor workspace user s).0))
          ≡ holds_owner (lookup u (members_of w s)))
unfolding upsert_member delete_member
admin_keeps_owners now actor workspace user role s w u h = (
  ground (arith, guarded_owners now (new_member now workspace user role) s w u),
  ground (arith, delete_owners workspace user s w u),
)
