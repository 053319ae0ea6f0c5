-- ===== src/Iam/Store/Owners.antt =====
-- How the writes of `MemoryIAMStore` change who owns a workspace.
use mathlib.Core.Logic.{if_pos, if_neg}
use ecommerce_ops_agent.Base.{
  ◌∙◌, ℕ, ◌+◌, ◌≡◌, refl, String, [], ◌∷◌, Bool, true, false, none, if◌then◌else◌, ◌==◌, string_eq,
  arith,
}
use ecommerce_ops_agent.Base.Dict.{lookup, insert, erase, lookup-insert, lookup-erase}
use ecommerce_ops_agent.Iam.Record.{WorkspaceMember}
use ecommerce_ops_agent.Iam.Store.{Members, owners, is_owner, holds_owner}

abbrev pub one_if : Bool → ℕ
one_if true = 1
one_if false = 0

-- One entry a key, as in a map.
abbrev pub IsMap : Members → Type 0
IsMap [] = Unit
IsMap ((k, m) ∷ d) = (lookup k d ≡ none) × IsMap d

pub owners-insert :
    (k : String) (m : WorkspaceMember) (d : Members)
    → owners (insert k m d) + one_if (holds_owner (lookup k d)) ≡ owners d + one_if (is_owner m)
unfolding owners insert lookup
owners-insert k m [] = ground arith
owners-insert k m (_ ∷ d) = ground (arith, owners-insert k m d)

owners-erase-none : (k : String) (d : Members) → lookup k d ≡ none → owners (erase k d) ≡ owners d
unfolding owners erase lookup
owners-erase-none k [] h = refl
owners-erase-none k (_ ∷ d) h = ground (arith, owners-erase-none k d)

pub owners-erase :
    (k : String) (d : Members)
    → IsMap d
    → owners (erase k d) + one_if (holds_owner (lookup k d)) ≡ owners d
unfolding owners erase lookup
owners-erase k [] h = omega arith
owners-erase k ((j, m) ∷ d) h = ground (arith, owners-erase k d h.1, owners-erase-none k d, h.0)

pub insert-IsMap : (k : String) (m : WorkspaceMember) (d : Members) → IsMap d → IsMap (insert k m d)
unfolding insert lookup
insert-IsMap k m [] h = (refl, tt)
insert-IsMap k m ((j, w) ∷ d) h = elim (string_eq.dec k j) [
  | yes same ↦ rw (if_pos _ same) (rw same h.0, h.1)
  | no other ↦
      rw (if_neg _ other) (lookup-insert j k m d ∙ ground (arith, h.0), insert-IsMap k m d h.1)
]

pub erase-IsMap : (k : String) (d : Members) → IsMap d → IsMap (erase k d)
unfolding erase lookup
erase-IsMap k [] h = tt
erase-IsMap k ((j, w) ∷ d) h = elim (string_eq.dec k j) [
  | yes same ↦ rw (if_pos _ same) (erase-IsMap k d h.1)
  | no other ↦ rw (if_neg _ other) (lookup-erase j k d ∙ ground (arith, h.0), erase-IsMap k d h.1)
]

-- Which members a write leaves as owners or not.
pub holds_owner-insert :
    (j k : String) (m : WorkspaceMember) (d : Members)
    → holds_owner (lookup j (insert k m d))
      ≡ (if j == k then is_owner m else holds_owner (lookup j d))
holds_owner-insert j k m d = ground (arith, lookup-insert j k m d)

pub holds_owner-erase :
    (j k : String) (d : Members)
    → holds_owner (lookup j (erase k d)) ≡ (if j == k then false else holds_owner (lookup j d))
holds_owner-erase j k d = ground (arith, lookup-erase j k d)
