-- ===== src/Iam/Service/Examples.antt =====
-- A workspace with an owner, an admin and a guest.
use ecommerce_ops_agent.Base.{
  ◌≡◌, ◌≢◌, refl, String, List, [], ◌∷◌, true, false, none, some, ok, err, string_eq, ℕ, arith,
}
use ecommerce_ops_agent.Base.Dict.{lookup}
use ecommerce_ops_agent.Iam.Record.{User, forbidden}
use ecommerce_ops_agent.Iam.Store.{
  Store, members_of, holds_owner, owners, get_user_by_id, get_workspace_member,
  upsert_workspace_member_guarded,
}
use ecommerce_ops_agent.Iam.Store.Owners.{IsMap}
use ecommerce_ops_agent.Iam.Store.Writes.{HasOwner, AllMaps}
use ecommerce_ops_agent.Iam.Service.{
  workspace_management_authority, role_authority, is_active, upsert_member, delete_member,
  new_member, upsert_workspace_member_fallback, workspace_of,
}
use ecommerce_ops_agent.Iam.Service.Authority.{admin_keeps_owners}
use ecommerce_ops_agent.Iam.Service.History.{Request, upsert, delete, set_role, run, run-HasOwner}
use ecommerce_ops_agent.Iam.Service.Fallback.{guarded_iff_fallback}

abbrev pub user : String → User
user id = record {
  id = id;
  email = id;
  name = id;
  role = "member";
  password_hash = "";
  status = "active";
  created_at = 1;
  updated_at = 1;
}

abbrev pub shop : Store
shop = record {
  users = ("olga", user "olga") ∷ ("adam", user "adam") ∷ ("gus", user "gus") ∷ [];
  workspaces = ("w1", workspace_of 1 "w1" "shop" "" none) ∷ [];
  members =
      (
        "w1",
        ("olga", new_member 1 "w1" "olga" "owner")
            ∷ ("adam", new_member 1 "w1" "adam" "admin")
            ∷ [],
      )
      ∷ [];
}

guest_has_none : workspace_management_authority "gus" "w1" shop ≡ err forbidden
unfolding workspace_management_authority get_user_by_id get_workspace_member is_active
    role_authority lookup string_eq
guest_has_none = refl

admin_has_some : workspace_management_authority "adam" "w1" shop ≡ ok false
unfolding workspace_management_authority get_user_by_id get_workspace_member is_active
    role_authority lookup string_eq
admin_has_some = refl

admin_keeps_owners_example :
    (holds_owner
        (lookup "adam" (members_of "w1" (upsert_member 5 "adam" "w1" "adam" "owner" shop).0))
      ≡ holds_owner (lookup "adam" (members_of "w1" shop)))
    × (holds_owner (lookup "adam" (members_of "w1" (delete_member "adam" "w1" "adam" shop).0))
        ≡ holds_owner (lookup "adam" (members_of "w1" shop)))
admin_keeps_owners_example =
    admin_keeps_owners 5 "adam" "w1" "adam" "owner" shop "w1" "adam" admin_has_some

nobody_elsewhere : (w : String) → w ≢ "w1" → members_of w shop ≡ []
unfolding lookup
nobody_elsewhere w h = ground arith

shop_members : IsMap (members_of "w1" shop)
unfolding lookup string_eq
shop_members = (refl, (refl, tt))

shop-AllMaps : AllMaps shop
shop-AllMaps w = elim (string_eq.dec w "w1") [
  | yes same ↦ rw same shop_members
  | no other ↦ rw (nobody_elsewhere w other) tt
]

owned : HasOwner "w1" shop
unfolding owners lookup string_eq
owned = omega arith

abbrev quarrel : List (ℕ × Request)
quarrel =
    (5, delete "olga" "w1" "olga")
    ∷ (6, upsert "adam" "w1" "olga" "viewer")
    ∷ (7, set_role "adam" "admin")
    ∷ (8, delete "adam" "w1" "olga")
    ∷ []

run-HasOwner_example : HasOwner "w1" (run shop quarrel)
run-HasOwner_example = run-HasOwner shop quarrel "w1" shop-AllMaps owned

olga_found : lookup "olga" shop.users ≡ some (user "olga")
unfolding lookup string_eq
olga_found = refl

shop_found : lookup "w1" shop.workspaces ≡ some (workspace_of 1 "w1" "shop" "" none)
unfolding lookup string_eq
shop_found = refl

guarded_iff_fallback_example :
    ((upsert_workspace_member_guarded 5 (new_member 5 "w1" "olga" "viewer") true shop).1
      ≡ (upsert_workspace_member_fallback 5 (new_member 5 "w1" "olga" "viewer") true shop).1)
    × (members_of "w1"
          (upsert_workspace_member_guarded 5 (new_member 5 "w1" "olga" "viewer") true shop).0
        ≡ members_of "w1"
            (upsert_workspace_member_fallback 5 (new_member 5 "w1" "olga" "viewer") true shop).0)
guarded_iff_fallback_example =
    guarded_iff_fallback 5 (new_member 5 "w1" "olga" "viewer") true shop
      (workspace_of 1 "w1" "shop" "" none) (user "olga") "w1" shop_found olga_found
