-- ===== src/Iam/Store/Writes.antt =====
-- What the writes of `MemoryIAMStore` do to the members of each workspace.
use mathlib.Core.Logic.{if_pos, if_neg}
use ecommerce_ops_agent.Base.{
  ℕ, ◌+◌, ◌<◌, ◌≡◌, refl, String, [], Bool, false, ◌&&◌, Option, none, some, if◌then◌else◌, ◌==◌,
  string_eq, arith,
}
use ecommerce_ops_agent.Base.Dict.{lookup, insert, erase, lookup-insert}
use ecommerce_ops_agent.Iam.Record.{WorkspaceMember}
use ecommerce_ops_agent.Iam.Store.{
  Store, Members, owners, is_owner, holds_owner, members_of, known, with_room, put_member, written,
  upsert_in, upsert_workspace_member_guarded, delete_workspace_member_guarded,
}
use ecommerce_ops_agent.Iam.Store.Owners.{
  one_if, IsMap, owners-insert, owners-erase, insert-IsMap, erase-IsMap, holds_owner-insert,
  holds_owner-erase,
}

pub members_of-with_room :
    (w k : String) (s : Store) → members_of w (with_room k s) ≡ members_of w s
unfolding with_room
members_of-with_room w k s = ground (arith, lookup-insert w k [] s.members)

is_owner-written :
    (now : ℕ) (m : WorkspaceMember) (o : Option WorkspaceMember)
    → is_owner (written now m o) ≡ is_owner m
is_owner-written now m none = refl
is_owner-written now m (some e) = refl

pub members_of-set :
    (w k : String) (d : Members) (s : Store)
    → members_of w (record s { members = insert k d s.members })
      ≡ (if w == k then d else members_of w s)
members_of-set w k d s = ground (arith, lookup-insert w k d s.members)

module _ (now : ℕ) (m : WorkspaceMember) (s : Store) where
  abbrev held : Members
  held = members_of m.workspace_id s

  abbrev stored : WorkspaceMember
  stored = written now m (lookup m.user_id held)

  pub holds_owner-put_member :
      (w u : String)
      → holds_owner (lookup u (members_of w (put_member now m s))) ≡ (
          if w == m.workspace_id && u == m.user_id
          then is_owner m
          else holds_owner (lookup u (members_of w s)))
  unfolding put_member
  holds_owner-put_member w u = ground (
    arith,
    members_of-set w m.workspace_id (insert m.user_id stored held) s,
    holds_owner-insert u m.user_id stored held,
    is_owner-written now m (lookup m.user_id held),
  )

  pub owners-put_member :
      (w : String)
      → owners (members_of w (put_member now m s))
          + (if w == m.workspace_id then one_if (holds_owner (lookup m.user_id held)) else 0)
        ≡ owners (members_of w s) + (if w == m.workspace_id then one_if (is_owner m) else 0)
  unfolding put_member
  owners-put_member w = ground (
    arith,
    members_of-set w m.workspace_id (insert m.user_id stored held) s,
    owners-insert m.user_id stored held,
    is_owner-written now m (lookup m.user_id held),
  )

-- Every workspace's members stand under one entry each.
abbrev pub AllMaps : Store → Type 0
AllMaps s = (w : String) → IsMap (members_of w s)

pub set-AllMaps :
    (k : String) (d : Members) (s : Store)
    → IsMap d
    → AllMaps s
    → AllMaps (record s { members = insert k d s.members })
set-AllMaps k d s here h w = elim (string_eq.dec w k) [
  | yes same ↦ rw (members_of-set w k d s, if_pos _ same) here
  | no other ↦ rw (members_of-set w k d s, if_neg _ other) (h w)
]

pub put_member-AllMaps :
    (now : ℕ) (m : WorkspaceMember) (s : Store) → AllMaps s → AllMaps (put_member now m s)
unfolding put_member
put_member-AllMaps now m s h =
    set-AllMaps m.workspace_id (insert m.user_id (stored now m s) (held now m s)) s
      (insert-IsMap m.user_id (stored now m s) (held now m s) (h m.workspace_id)) h

pub with_room-AllMaps : (k : String) (s : Store) → AllMaps s → AllMaps (with_room k s)
with_room-AllMaps k s h w = rw (members_of-with_room w k s) (h w)

-- A workspace that has an owner.
abbrev pub HasOwner : String → Store → Type 0
HasOwner w s = 0 < owners (members_of w s)

pub upsert_in-HasOwner :
    (now : ℕ) (m : WorkspaceMember) (allow : Bool) (s : Store) (w : String)
    → HasOwner w s
    → HasOwner w (upsert_in now m allow s).0
unfolding upsert_in
upsert_in-HasOwner now m allow s w h = ground (arith, owners-put_member now m s w)

pub upsert_in-AllMaps :
    (now : ℕ) (m : WorkspaceMember) (allow : Bool) (s : Store)
    → AllMaps s
    → AllMaps (upsert_in now m allow s).0
unfolding upsert_in
upsert_in-AllMaps now m allow s h = ground (arith, put_member-AllMaps now m s h)

pub delete-HasOwner :
    (k user : String) (allow : Bool) (s : Store) (w : String)
    → AllMaps s
    → HasOwner w s
    → HasOwner w (delete_workspace_member_guarded k user allow s).0
unfolding delete_workspace_member_guarded
delete-HasOwner k user allow s w maps h = ground (
  arith,
  members_of-set w k (erase user (members_of k s)) s,
  owners-erase user (members_of k s) (maps k),
)

pub delete-AllMaps :
    (k user : String) (allow : Bool) (s : Store)
    → AllMaps s
    → AllMaps (delete_workspace_member_guarded k user allow s).0
unfolding delete_workspace_member_guarded
delete-AllMaps k user allow s maps = ground (
  arith,
  set-AllMaps k (erase user (members_of k s)) s (erase-IsMap user (members_of k s) (maps k)) maps,
)

module _ (now : ℕ) (m : WorkspaceMember) (allow : Bool) (s : Store) where
  pub guarded-HasOwner :
      (w : String) → HasOwner w s → HasOwner w (upsert_workspace_member_guarded now m allow s).0
  unfolding upsert_workspace_member_guarded known
  guarded-HasOwner w h = ground (
    arith,
    upsert_in-HasOwner now m allow (with_room m.workspace_id s) w,
    members_of-with_room w m.workspace_id s,
  )

  pub guarded-AllMaps : AllMaps s → AllMaps (upsert_workspace_member_guarded now m allow s).0
  unfolding upsert_workspace_member_guarded known
  guarded-AllMaps h = ground (
    arith,
    upsert_in-AllMaps now m allow (with_room m.workspace_id s)
        (with_room-AllMaps m.workspace_id s h),
  )

-- A guarded write without the right to manage owners leaves every owner, and makes none.
pub guarded_owners :
    (now : ℕ) (m : WorkspaceMember) (s : Store) (w u : String)
    → holds_owner (lookup u (members_of w (upsert_workspace_member_guarded now m false s).0))
      ≡ holds_owner (lookup u (members_of w s))
unfolding upsert_workspace_member_guarded known upsert_in
guarded_owners now m s w u = ground (
  arith,
  holds_owner-put_member now m (with_room m.workspace_id s) w u,
  members_of-with_room w m.workspace_id s,
)

pub delete_owners :
    (k user : String) (s : Store) (w u : String)
    → holds_owner (lookup u (members_of w (delete_workspace_member_guarded k user false s).0))
      ≡ holds_owner (lookup u (members_of w s))
unfolding delete_workspace_member_guarded
delete_owners k user s w u = ground (
  arith,
  members_of-set w k (erase user (members_of k s)) s,
  holds_owner-erase u user (members_of k s),
)
