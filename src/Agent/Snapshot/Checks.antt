-- ===== src/Agent/Snapshot/Checks.antt =====
-- What the checks of a snapshot ensure, said without the loops that make them.
use ecommerce_ops_agent.Base.{
  ◌≡◌, ◌∙◌, subst, refl, ap, String, List, [], ◌∷◌, Bool, true, false, ◌&&◌, not, Option, none,
  some, Result, ok, err, ◌>>=◌, arith, All, contains, ◌==◌, string_eq, if◌then◌else◌,
}
use ecommerce_ops_agent.Tool.Record.{Tool}
use ecommerce_ops_agent.Agent.Snapshot.{
  Spec, ToolResolver, SnapshotError, wrap, or_nil, attached_tool, tool_names, kbs_unconfigured,
  kb_failed, foreign_kb, skills_unconfigured, skill_failed, unpublished_skill, foreign_skill,
  network_refused, tool_missing, kb_missing, tools_unconfigured, tool_refused, foreign_tool,
  check_kbs, check_within, check_spec, check_skills,
}

-- A version that the resolver takes for a published one, of a tool of the workspace with the name.
pub data IsAttached (tools : Option ToolResolver) (workspace : String)
    : String → String → Type 0 where
  attached :
      (resolver : ToolResolver) (version id : String) (meta : Tool)
      → tools ≡ some resolver
      → resolver.validate_version version workspace ≡ ok id
      → resolver.get_tool_meta id ≡ ok meta
      → meta.workspace_id ≡ workspace
      → IsAttached tools workspace version meta.name

-- The names are those of the versions, in order.
pub data Names (tools : Option ToolResolver) (workspace : String)
    : List String → List String → Type 0 where
  nil : Names tools workspace [] []
  cons :
      (version name : String) (versions names : List String)
      → IsAttached tools workspace version name
      → Names tools workspace versions names
      → Names tools workspace (version ∷ versions) (name ∷ names)

pub IsOwnKb : Option (String → String → Result String Bool) → String → String → Type 0
IsOwnKb kbs workspace id =
    (exists : String → String → Result String Bool) × (kbs ≡ some exists)
    × (exists workspace id ≡ ok true)

-- A published skill of the workspace that asks for no more than the snapshot has.
pub IsUsable :
    Option (String → Result String Spec)
    → String
    → Bool
    → List String
    → List String
    → String
    → Type 0
IsUsable skills workspace allow_network names kb_ids version =
    (get_spec : String → Result String Spec) × (sp : Spec) × (skills ≡ some get_spec)
    × (get_spec version ≡ ok sp)
    × (sp.status ≡ "published")
    × (sp.workspace_id ≡ workspace)
    × (sp.requires_network ≡ true → allow_network ≡ true)
    × All (λ name. contains names name ≡ true) sp.allowed_tools
    × All (λ kb. contains kb_ids kb ≡ true) sp.allowed_kbs

pub bind_ok :
    {E A B : Type 0} (r : Result E A) (f : A → Result E B) (b : B)
    → (r >>= f) ≡ ok b
    → (a : A) × (r ≡ ok a) × (f a ≡ ok b)
bind_ok (ok a) f b h = (a, refl, h)
bind_ok (err e) f b h = absurd (grind (arith, h))

pub or_nil_ok :
    {A : Type 0} (e : SnapshotError) (o : Option A) (a : A) → or_nil e o ≡ ok a → o ≡ some a
or_nil_ok e none a h = absurd (grind (arith, h))
or_nil_ok e (some b) a h = grind (arith, h)

pub wrap_ok :
    {A : Type 0} (f : String → SnapshotError) (r : Result String A) (a : A)
    → wrap f r ≡ ok a
    → r ≡ ok a
wrap_ok f (ok b) a h = grind (arith, h)
wrap_ok f (err e) a h = absurd (grind (arith, h))

pub refused_if :
    {A : Type 0} (b : Bool) (e : SnapshotError) (r : Result SnapshotError A) (a : A)
    → (if not b then err e else r) ≡ ok a
    → (b ≡ true) × (r ≡ ok a)
refused_if true e r a h = (refl, h)
refused_if false e r a h = absurd (grind (arith, h))

pub ==-true : (s t : String) → (s == t) ≡ true → s ≡ t
==-true s t h = grind (arith, h)

pub ok_inj : {A : Type 0} {a b : A} {r : Result SnapshotError A} → r ≡ ok a → r ≡ ok b → a ≡ b
ok_inj p q = grind (arith, p, q)

check_within-All :
    (missing : String → SnapshotError) (have names : List String) (u : Unit {0})
    → check_within missing have names ≡ ok u
    → All (λ name. contains have name ≡ true) names
unfolding check_within
check_within-All missing have [] u h = tt
check_within-All missing have (name ∷ names) u h =
    let (there, rest) = refused_if (contains have name) (missing name) _ u h in
    (there, check_within-All missing have names u rest)

pub kbs_own :
    (kbs : Option (String → String → Result String Bool)) (workspace : String) (ids : List String)
    (u : Unit {0})
    → check_kbs kbs workspace ids ≡ ok u
    → All (IsOwnKb kbs workspace) ids
unfolding check_kbs IsOwnKb
kbs_own kbs workspace [] u h = tt
kbs_own kbs workspace (id ∷ ids) u h =
    let (exists, known, h1) = bind_ok (or_nil kbs_unconfigured kbs) _ u h in
    let (there, found, h2) = bind_ok (wrap (kb_failed id) (exists workspace id)) _ u h1 in
    let (own, rest) = refused_if there (foreign_kb id) _ u h2 in
    (
      (exists, or_nil_ok _ kbs exists known, wrap_ok _ _ there found ∙ ap (λ b. ok b) own),
      kbs_own kbs workspace ids u rest,
    )

pub passed_if :
    {A : Type 0} (b : Bool) (e : SnapshotError) (r : Result SnapshotError A) (a : A)
    → (if b then err e else r) ≡ ok a
    → (b ≡ false) × (r ≡ ok a)
passed_if false e r a h = (refl, h)
passed_if true e r a h = absurd (grind (arith, h))

network_lem :
    (needed allowed : Bool) → (needed && not allowed) ≡ false → needed ≡ true → allowed ≡ true
network_lem true true h g = refl
network_lem true false h g = absurd (grind (arith, h))
network_lem false allowed h g = absurd (grind (arith, g))

spec-IsUsable :
    (skills : Option (String → Result String Spec)) (workspace : String) (allow_network : Bool)
    (names kb_ids : List String) (version : String) (get_spec : String → Result String Spec)
    (sp : Spec) (u : Unit {0})
    → skills ≡ some get_spec
    → get_spec version ≡ ok sp
    → check_spec workspace allow_network names kb_ids version sp ≡ ok u
    → IsUsable skills workspace allow_network names kb_ids version
unfolding check_spec IsUsable
spec-IsUsable skills workspace allow_network names kb_ids version get_spec sp u known found h =
    let (published, h1) = refused_if (sp.status == "published") (unpublished_skill sp.name) _ u h in
    let (own, h2) = refused_if (sp.workspace_id == workspace) (foreign_skill version) _ u h1 in
    let (network, h3) =
      passed_if (sp.requires_network && not allow_network) (network_refused sp.name) _ u h2 in
    let (v, tools, kbs) =
      bind_ok (check_within (tool_missing sp.name) names sp.allowed_tools) _ u h3 in
    (
      get_spec,
      sp,
      known,
      found,
      ==-true sp.status "published" published,
      ==-true sp.workspace_id workspace own,
      network_lem sp.requires_network allow_network network,
      check_within-All (tool_missing sp.name) names sp.allowed_tools v tools,
      check_within-All (kb_missing sp.name) kb_ids sp.allowed_kbs u kbs,
    )

pub skills-IsUsable :
    (skills : Option (String → Result String Spec)) (workspace : String) (allow_network : Bool)
    (names kb_ids versions : List String) (u : Unit {0})
    → check_skills skills workspace allow_network names kb_ids versions ≡ ok u
    → All (IsUsable skills workspace allow_network names kb_ids) versions
unfolding check_skills
skills-IsUsable skills workspace allow_network names kb_ids [] u h = tt
skills-IsUsable skills workspace allow_network names kb_ids (version ∷ versions) u h =
    let (get_spec, known, h1) = bind_ok (or_nil skills_unconfigured skills) _ u h in
    let (sp, found, h2) = bind_ok (wrap (skill_failed version) (get_spec version)) _ u h1 in
    let (v, usable, rest) =
      bind_ok (check_spec workspace allow_network names kb_ids version sp) _ u h2 in
    (
      spec-IsUsable skills workspace allow_network names kb_ids version get_spec sp v
          (or_nil_ok _ skills get_spec known) (wrap_ok _ _ sp found) usable,
      skills-IsUsable skills workspace allow_network names kb_ids versions u rest,
    )

tool-IsAttached :
    (tools : Option ToolResolver) (resolver : ToolResolver) (workspace version name : String)
    → tools ≡ some resolver
    → attached_tool resolver workspace version ≡ ok name
    → IsAttached tools workspace version name
unfolding attached_tool
tool-IsAttached tools resolver workspace version name known h =
    let (id, valid, h1) =
      bind_ok (wrap (tool_refused version) (resolver.validate_version version workspace)) _ name
        h in
    let (meta, found, h2) =
      bind_ok (wrap (tool_refused id) (resolver.get_tool_meta id)) _ name h1 in
    let (own, named) = refused_if (meta.workspace_id == workspace) (foreign_tool id) _ name h2 in
    subst (IsAttached tools workspace version) (ok_inj refl named) (
      attached resolver version id meta known (wrap_ok _ _ id valid) (wrap_ok _ _ meta found)
        (==-true meta.workspace_id workspace own))

pub tools_attached :
    (tools : Option ToolResolver) (workspace : String) (versions names : List String)
    → tool_names tools workspace versions ≡ ok names
    → Names tools workspace versions names
unfolding tool_names
tools_attached tools workspace [] names h = subst (Names tools workspace []) (ok_inj refl h) nil
tools_attached tools workspace (version ∷ versions) names h =
    let (resolver, known, h1) = bind_ok (or_nil tools_unconfigured tools) _ names h in
    let (name, found, h2) = bind_ok (attached_tool resolver workspace version) _ names h1 in
    let (others, rest, listed) = bind_ok (tool_names tools workspace versions) _ names h2 in
    subst (Names tools workspace (version ∷ versions)) (ok_inj refl listed) (
      cons version name versions others
        (tool-IsAttached tools resolver workspace version name (or_nil_ok _ tools resolver known)
          found)
        (tools_attached tools workspace versions others rest))
