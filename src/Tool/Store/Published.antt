-- ===== src/Tool/Store/Published.antt =====
-- The latest published version of a tool.
use ecommerce_ops_agent.Base.{
  ◌≡◌, ◌≤◌, ◌↔◌, inl, inr, if◌then◌else◌, String, List, [], ◌∷◌, All, true, false, Option, none,
  some, ok, err, arith, string_eq, Bool-cases, Option-cases, refl, subst, ◌&&◌,
}
use ecommerce_ops_agent.Base.Dict.{values}
use ecommerce_ops_agent.Tool.Record.{ToolVersion}
use ecommerce_ops_agent.Tool.Store.{
  Store, is_newer, is_published, latest_published, get_tool_latest_published_version,
  no_published_version,
}

-- Published versions of the tool are at most this one; where there is none, there are none.
pub IsBound : String → Option ToolVersion → ToolVersion → Type 0
IsBound tool none v = is_published tool v ≡ false
IsBound tool (some latest) v = is_published tool v ≡ true → v.version ≤ latest.version

pub IsOwn : String → Option ToolVersion → Type 0
IsOwn tool none = Unit
IsOwn tool (some latest) = is_published tool latest ≡ true

abbrev next : String → Option ToolVersion → ToolVersion → Option ToolVersion
next tool latest v = if is_published tool v && is_newer latest v then some v else latest

next-IsOwn :
    (tool : String) (latest : Option ToolVersion) (v : ToolVersion)
    → IsOwn tool latest
    → IsOwn tool (next tool latest v)
unfolding IsOwn
next-IsOwn tool none v own = elim (Bool-cases (is_published tool v)) [
  | inl e ↦ rw (e) e
  | inr e ↦ rw (e) tt
]
next-IsOwn tool (some l) v own = elim (Bool-cases (is_published tool v)) [
  | inl e ↦ elim (Bool-cases (is_newer (some l) v)) [ inl n ↦ rw (e, n) e | inr n ↦ rw (e, n) own ]
  | inr e ↦ rw (e) own
]

next-IsBound :
    (tool : String) (latest : Option ToolVersion) (v w : ToolVersion)
    → IsBound tool latest w
    → IsBound tool (next tool latest v) w
unfolding IsBound
next-IsBound tool none v w bound = elim (Bool-cases (is_published tool v)) [
  | inl e ↦ rw (e) (λ published. ground (arith, published, bound))
  | inr e ↦ rw (e) bound
]
next-IsBound tool (some l) v w bound = elim (Bool-cases (is_published tool v)) [
  | inl e ↦ elim (Bool-cases (is_newer (some l) v)) [
    | inl n ↦ rw (e, n) (λ published. ground (arith, n, bound published))
    | inr n ↦ rw (e, n) bound
  ]
  | inr e ↦ rw (e) bound
]

next_bounds :
    (tool : String) (latest : Option ToolVersion) (v : ToolVersion)
    → IsBound tool (next tool latest v) v
unfolding IsBound
next_bounds tool none v = elim (Bool-cases (is_published tool v)) [
  | inl e ↦ rw (e) (λ _. omega arith)
  | inr e ↦ rw (e) e
]
next_bounds tool (some l) v = elim (Bool-cases (is_published tool v)) [
  | inl e ↦ elim (Bool-cases (is_newer (some l) v)) [
    | inl n ↦ rw (e, n) (λ _. omega arith)
    | inr n ↦ rw (e, n) (λ _. ground (arith, n))
  ]
  | inr e ↦ rw (e) (λ published. ground (arith, e, published))
]

latest_lem :
    (tool : String) (vs : List ToolVersion) (latest : Option ToolVersion)
    → IsOwn tool latest
    → let r = latest_published tool latest vs in
      IsOwn tool r
      × ((w : ToolVersion) → IsBound tool latest w → IsBound tool r w)
      × All (IsBound tool r) vs
unfolding latest_published
latest_lem tool [] latest own = (own, (λ w b. b), tt)
latest_lem tool (v ∷ vs) latest own =
    let n = next tool latest v in
    let (is_own, keeps, all) = latest_lem tool vs n (next-IsOwn tool latest v own) in
    (
      is_own,
      (λ w b. keeps w (next-IsBound tool latest v w b)),
      (keeps v (next_bounds tool latest v), all),
    )

none_published :
    (tool : String) (vs : List ToolVersion)
    → All (λ (w : ToolVersion). is_published tool w ≡ false) vs
    → latest_published tool none vs ≡ none
unfolding latest_published
none_published tool [] all = refl
none_published tool (v ∷ vs) (here, there) = ground (arith, here, none_published tool vs there)

-- The version that is returned is a published one of the tool, and no published version of the tool has
-- a higher number; where the tool has none, that is the error.
pub latest-IsBound :
    (tool : String) (s : Store)
    → ((v : ToolVersion)
        → get_tool_latest_published_version tool s ≡ ok v
        → (is_published tool v ≡ true)
          × All
              (λ (w : ToolVersion). is_published tool w ≡ true → w.version ≤ v.version)
              (values s.versions))
      × ((get_tool_latest_published_version tool s ≡ err no_published_version)
          ↔ All (λ (w : ToolVersion). is_published tool w ≡ false) (values s.versions))
unfolding get_tool_latest_published_version IsOwn IsBound
latest-IsBound tool s =
    let vs = values s.versions in
    let (own, _, all) = latest_lem tool vs none tt in
    elim (Option-cases (latest_published tool none vs)) [
      | inl e ↦ (
        λ v got. absurd (ground (arith, e, got)),
        (λ _. subst (λ o. All (IsBound tool o) vs) e all, λ unpublished. ground (arith, e)),
      )
      | inr (l, e) ↦ (
        λ v got.
            let same : l ≡ v = ground (arith, e, got) in
            (
              subst (λ w. is_published tool w ≡ true) same (subst (IsOwn tool) e own),
              subst (λ w. All (IsBound tool (some w)) vs) same
                  (subst (λ o. All (IsBound tool o) vs) e all),
            ),
        (
          λ missing. absurd (ground (arith, e, missing)),
          λ unpublished. ground (arith, none_published tool vs unpublished),
        ),
      )
    ]
