-- ===== src/Agent/Service/Versions.antt =====
-- What a new version of an agent is.
use ecommerce_ops_agent.Base.{
  ◌≡◌, ◌∙◌, ap, refl, sym, subst, ◌⊎◌, ℕ, suc, length, String, some, Result, ok, err, arith,
  string_eq, Result-cases, inl, inr,
}
use ecommerce_ops_agent.Base.Dict.{lookup, insert, lookup-insert_self}
use ecommerce_ops_agent.Agent.Record.{Agent, AgentVersion}
use ecommerce_ops_agent.Agent.Store.{
  Store, bindings_of, create_agent_version, get_agent_version, get_agent_current_version,
  list_agent_versions,
}
use ecommerce_ops_agent.Agent.Snapshot.{
  StoredSnapshot, AgentVersionConfig, SnapshotError, Resolvers, build_snapshot, marshal_failed,
}
use ecommerce_ops_agent.Agent.Snapshot.Checks.{bind_ok, wrap_ok}
use ecommerce_ops_agent.Agent.Snapshot.Closed.{IsClosed, build_snapshot-IsClosed}
use ecommerce_ops_agent.Agent.Dependencies.{validate_version_dependencies}
use ecommerce_ops_agent.Agent.Service.{
  AgentVersionView, ServiceError, own_agent, new_version, create_version, build_snapshot_json,
  from_snapshot, version_view,
}
use ecommerce_ops_agent.Agent.Service.Promotion.{own_lem}

from_snapshot_ok :
    {A : Type 0} (r : Result SnapshotError A) (a : A) → from_snapshot r ≡ ok a → r ≡ ok a
from_snapshot_ok (ok b) a h = grind (arith, h)
from_snapshot_ok (err e) a h = absurd (grind (arith, h))

made_current :
    (v : AgentVersion) (s : Store)
    → get_agent_current_version v.agent_id "dev" (create_agent_version v s) ≡ ok v
unfolding create_agent_version get_agent_current_version get_agent_version
made_current v s =
    let bound = insert "dev" v.id (bindings_of v.agent_id s) in
    ground (
      arith,
      lookup-insert_self v.agent_id bound s.agent_bindings,
      lookup-insert_self "dev" v.id (bindings_of v.agent_id s),
      lookup-insert_self v.id v s.agent_versions,
    )

ok_inj : {A : Type 0} {a b : A} {q : Result ServiceError A} → q ≡ ok a → q ≡ ok b → a ≡ b
ok_inj g h = grind (arith, g, h)

module _ {F : Type 0} (r : Resolvers) (marshal : StoredSnapshot F → Result String String)
    (unmarshal : String → Result String (StoredSnapshot F)) where
  -- The snapshot that a text holds, and that the workspace may run.
  pub IsRunnable : String → String → Type 0
  IsRunnable workspace json =
      (snap : StoredSnapshot F) × (marshal snap ≡ ok json) × IsClosed r workspace snap

  pub IsNext : Store → String → String → AgentVersion → Type 0
  IsNext s agent workspace v =
      (ag : Agent) × (lookup agent s.agents ≡ some ag)
      × ((workspace ≡ "") ⊎ (ag.workspace_id ≡ workspace))
      × (v.agent_id ≡ agent)
      × (v.version ≡ suc (length (list_agent_versions agent s)))
      × IsRunnable ag.workspace_id v.snapshot_json

  json-IsRunnable :
      (agent workspace : String) (cfg : AgentVersionConfig F) (json : String)
      → build_snapshot_json r marshal agent workspace cfg ≡ ok json
      → IsRunnable workspace json
  unfolding build_snapshot_json IsRunnable
  json-IsRunnable agent workspace cfg json h =
      let (snap, built, written) = bind_ok (build_snapshot r agent workspace cfg) _ json h in
      (
        snap,
        wrap_ok marshal_failed (marshal snap) json written,
        build_snapshot-IsClosed r agent workspace cfg snap built,
      )

  new_version-IsNext :
      (now : ℕ) (id agent workspace : String) (cfg : AgentVersionConfig F) (actor : String)
      (s : Store) (v : AgentVersion)
      → new_version r marshal now id agent workspace cfg actor s ≡ ok v
      → IsNext s agent workspace v
  unfolding new_version IsNext
  new_version-IsNext now id agent workspace cfg actor s v h =
      let (ag, own, h1) = bind_ok (own_agent agent workspace s) _ v h in
      let (u, valid, h2) =
        bind_ok (from_snapshot (validate_version_dependencies r ag.workspace_id cfg)) _ v h1 in
      let (json, built, made) =
        bind_ok (from_snapshot (build_snapshot_json r marshal agent ag.workspace_id cfg)) _ v h2 in
      let (known, asked) = own_lem agent workspace ag s own in
      let runs : IsRunnable ag.workspace_id json =
        json-IsRunnable agent ag.workspace_id cfg json
          (from_snapshot_ok (build_snapshot_json r marshal agent ag.workspace_id cfg) json built) in
      subst (IsNext s agent workspace) (ok_inj refl made) (ag, known, asked, refl, refl, runs)

  created :
      (now : ℕ) (id agent workspace : String) (cfg : AgentVersionConfig F) (actor : String)
      (s : Store) (v : AgentVersion)
      → new_version r marshal now id agent workspace cfg actor s ≡ ok v
      → create_version r marshal unmarshal now id agent workspace cfg actor s
        ≡ (create_agent_version v s, version_view unmarshal v)
  unfolding create_version
  created now id agent workspace cfg actor s v made = grind (arith, made)

  viewed :
      (v : AgentVersion) (view : AgentVersionView F)
      → version_view unmarshal v ≡ ok view
      → view.version ≡ v.version
  unfolding version_view
  viewed v view h = grind (arith, h)

  -- A request for a new version that answers with a view has made the version that is current in dev,
  -- with the next number, for an agent that is the workspace's or no workspace was asked for; its text
  -- is that of a snapshot whose tools and knowledge bases are the workspace's, and whose skills are
  -- published ones of the workspace that ask for no tool, knowledge base or network it does not have.
  pub create_version-IsNext :
      (now : ℕ) (id agent workspace : String) (cfg : AgentVersionConfig F) (actor : String)
      (s : Store) (view : AgentVersionView F)
      → (create_version r marshal unmarshal now id agent workspace cfg actor s).1 ≡ ok view
      → (v : AgentVersion) × IsNext s agent workspace v
        × (get_agent_current_version agent "dev"
              (create_version r marshal unmarshal now id agent workspace cfg actor s).0
            ≡ ok v)
        × (view.version ≡ v.version)
  unfolding create_version IsNext
  create_version-IsNext now id agent workspace cfg actor s view h =
      elim (Result-cases (new_version r marshal now id agent workspace cfg actor s)) [
        | inl (e, failed) ↦ absurd (grind (arith, h, failed))
        | inr (v, made) ↦
            let next = new_version-IsNext now id agent workspace cfg actor s v made in
            let (_, _, _, of, _, _) = next in
            let made_lem = created now id agent workspace cfg actor s v made in
            (
              v,
              next,
              ap (λ t. get_agent_current_version agent "dev" t.0) made_lem
                  ∙ subst (λ a. get_agent_current_version a "dev" (create_agent_version v s) ≡ ok v)
                      of (made_current v s),
              viewed v view (sym (ap (λ t. t.1) made_lem) ∙ h),
            )
      ]
