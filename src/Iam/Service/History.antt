-- ===== src/Iam/Service/History.antt =====
-- Any sequence of the requests that change members or workspaces, in the order in which they take the
-- store's mutex.
use ecommerce_ops_agent.Base.{
  Result, ok, err, Result-cases, Bool-cases, inl, inr, ℕ, ◌≡◌, refl, String, List, [], ◌∷◌, Option,
  Bool, true, false, arith, string_eq,
}
use ecommerce_ops_agent.Base.Dict.{lookup}
use ecommerce_ops_agent.Iam.Record.{Error, Workspace}
use ecommerce_ops_agent.Iam.Store.{
  upsert_workspace_member_guarded, delete_workspace_member_guarded, get_user_by_id, Store,
  owner_member, set_user_role, create_user, create_workspace, create_workspace_with_owner, owners,
}
use ecommerce_ops_agent.Iam.Record.{User}
use ecommerce_ops_agent.Iam.Store.Writes.{
  HasOwner, AllMaps, guarded-HasOwner, guarded-AllMaps, delete-HasOwner, delete-AllMaps,
  members_of-set, set-AllMaps,
}
use ecommerce_ops_agent.Iam.Service.{
  workspace_management_authority, valid_workspace_role, then_read, deleted_or_missing,
  with_workspace, upsert_member, delete_member, create_workspace_for_user, create_workspace_plain,
  new_member, workspace_of,
}

pub data Request : Type 0 where
  upsert : (actor workspace user role : String) → Request
  delete : (actor workspace user : String) → Request
  found : (id actor name description : String) (parent : Option String) → Request
  found_plain : (id name description : String) (parent : Option String) → Request
  sign_up : User → Request
  set_role : (user role : String) → Request

pub step : Store → ℕ × Request → Store
step s (now, upsert actor workspace user role) = (upsert_member now actor workspace user role s).0
step s (now, delete actor workspace user) = (delete_member actor workspace user s).0
step s (now, found id actor name description parent) =
    (create_workspace_for_user now id actor name description parent s).0
step s (now, found_plain id name description parent) =
    (create_workspace_plain now id name description parent s).0
step s (now, sign_up user) = (create_user user s).0
step s (now, set_role user role) = (set_user_role now user role s).0

pub run : Store → List (ℕ × Request) → Store
unfolding step
run s [] = s
run s (r ∷ rs) = run (step s r) rs

then_read-same :
    (workspace user : String) (r : Store × Result Error (Unit {0}))
    → (then_read workspace user r).0 ≡ r.0
then_read-same workspace user (t, err e) = refl
then_read-same workspace user (t, ok x) = refl

deleted_or_missing-same : (r : Store × Result Error Bool) → (deleted_or_missing r).0 ≡ r.0
deleted_or_missing-same (t, err e) = refl
deleted_or_missing-same (t, ok true) = refl
deleted_or_missing-same (t, ok false) = refl

-- What holds of the store as it is and after any guarded write holds after the request.
module _ {ℓ} (P : Store → Type ℓ) (now : ℕ) (s : Store) (same : P s) where
  upsert_member_cases :
      (actor workspace user role : String)
      → ((b : Bool)
          → P (upsert_workspace_member_guarded now (new_member now workspace user role) b s).0)
      → P (upsert_member now actor workspace user role s).0
  unfolding upsert_member
  upsert_member_cases actor workspace user role writes =
      elim (Result-cases (workspace_management_authority actor workspace s)) [
        | inl (e, p) ↦ rw (p, upsert_member) same
        | inr (b, p) ↦ elim (Bool-cases (valid_workspace_role role)) [
          | inr q ↦ rw (p, q, upsert_member) same
          | inl q ↦ elim (Result-cases (get_user_by_id user s)) [
            | inl (e, r) ↦ rw (p, q, r, upsert_member) same
            | inr (u, r) ↦ rw (p, q, r, upsert_member, then_read-same) (writes b)
          ]
        ]
      ]

  delete_member_cases :
      (actor workspace user : String)
      → ((b : Bool) → P (delete_workspace_member_guarded workspace user b s).0)
      → P (delete_member actor workspace user s).0
  unfolding delete_member
  delete_member_cases actor workspace user writes =
      elim (Result-cases (workspace_management_authority actor workspace s)) [
        | inl (e, p) ↦ rw (p, delete_member) same
        | inr (b, p) ↦ rw (p, delete_member, deleted_or_missing-same) (writes b)
      ]

module _ (now : ℕ) (s : Store) where
  found-AllMaps :
      (workspace : Workspace) (user : String)
      → AllMaps s
      → AllMaps (create_workspace_with_owner now workspace user s).0
  unfolding create_workspace_with_owner lookup
  found-AllMaps workspace user maps = ground (
    arith,
    set-AllMaps workspace.id ((user, owner_member now workspace.id user) ∷ []) s (refl, tt) maps,
  )

  found-HasOwner :
      (workspace : Workspace) (user w : String)
      → HasOwner w s
      → HasOwner w (create_workspace_with_owner now workspace user s).0
  unfolding create_workspace_with_owner owners
  found-HasOwner workspace user w h =
      ground
        (arith, members_of-set w workspace.id ((user, owner_member now workspace.id user) ∷ []) s)

with_workspace-same :
    (w : Workspace) (r : Store × Result Error (Unit {0})) → (with_workspace w r).0 ≡ r.0
with_workspace-same w (t, err e) = refl
with_workspace-same w (t, ok x) = refl

step-AllMaps : (s : Store) (r : ℕ × Request) → AllMaps s → AllMaps (step s r)
unfolding step create_workspace_for_user create_workspace_plain create_workspace create_user
    set_user_role
step-AllMaps s (now, upsert a k u r) h =
    upsert_member_cases AllMaps now s h a k u r
      (λ b. guarded-AllMaps now (new_member now k u r) b s h)
step-AllMaps s (now, delete a k u) h =
    delete_member_cases AllMaps now s h a k u (λ b. delete-AllMaps k u b s h)
step-AllMaps s (now, found id a n d p) h =
    rw (with_workspace-same (workspace_of now id n d p) _)
      (found-AllMaps now s (workspace_of now id n d p) a h)
step-AllMaps s (now, found_plain id n d p) h = h
step-AllMaps s (now, sign_up user) h = h
step-AllMaps s (now, set_role u r) h = ground (arith, h)

step-HasOwner :
    (s : Store) (r : ℕ × Request) (w : String) → AllMaps s → HasOwner w s → HasOwner w (step s r)
unfolding step create_workspace_for_user create_workspace_plain create_workspace create_user
    set_user_role
step-HasOwner s (now, upsert a k u r) w maps h =
    upsert_member_cases (HasOwner w) now s h a k u r
      (λ b. guarded-HasOwner now (new_member now k u r) b s w h)
step-HasOwner s (now, delete a k u) w maps h =
    delete_member_cases (HasOwner w) now s h a k u (λ b. delete-HasOwner k u b s w maps h)
step-HasOwner s (now, found id a n d p) w maps h =
    rw (with_workspace-same (workspace_of now id n d p) _)
      (found-HasOwner now s (workspace_of now id n d p) a w h)
step-HasOwner s (now, found_plain id n d p) w maps h = h
step-HasOwner s (now, sign_up user) w maps h = h
step-HasOwner s (now, set_role u r) w maps h = ground (arith, h)

-- In a store with one entry for each member, a workspace that has an owner has one after any
-- history of the service's requests by anyone, platform administrators included: the last owner is
-- neither removed nor given a lower role.
pub run-HasOwner :
    (s : Store) (rs : List (ℕ × Request)) (w : String)
    → AllMaps s
    → HasOwner w s
    → HasOwner w (run s rs)
unfolding run
run-HasOwner s [] w maps h = h
run-HasOwner s (r ∷ rs) w maps h =
    run-HasOwner (step s r) rs w (step-AllMaps s r maps) (step-HasOwner s r w maps h)
