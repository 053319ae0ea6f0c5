-- ===== src/Agent/Service/Promotion.antt =====
-- Which versions an environment can be moved to.
use ecommerce_ops_agent.Base.{
  ◌≡◌, ◌∙◌, ap, ◌⊎◌, inl, inr, String, false, ◌&&◌, not, some, ok, err, ◌==◌, string_eq, arith,
  Option-cases, Bool-cases, Result-cases,
}
use ecommerce_ops_agent.Base.Dict.{lookup, insert, lookup-insert_self}
use ecommerce_ops_agent.Agent.Record.{AgentVersion, Agent}
use ecommerce_ops_agent.Agent.Store.{
  Store, get_agent_current_version, get_agent_version, set_agent_env_binding, get_agent,
  bindings_of,
}
use ecommerce_ops_agent.Agent.Service.{promote_agent_version, own_agent, ServiceError}

-- A promotion that fails leaves the store as it was.
pub promote-unchanged :
    (agent workspace env version : String) (s : Store) (e : ServiceError)
    → (promote_agent_version agent workspace env version s).1 ≡ err e
    → (promote_agent_version agent workspace env version s).0 ≡ s
unfolding promote_agent_version get_agent_version set_agent_env_binding
promote-unchanged agent workspace env version s e h = ground (arith, h)

named_env :
    (env : String)
    → (not (env == "dev") && (not (env == "staging") && not (env == "prod"))) ≡ false
    → (env ≡ "dev") ⊎ ((env ≡ "staging") ⊎ (env ≡ "prod"))
named_env env h = ground (arith, h)

pub own_lem :
    (agent workspace : String) (ag : Agent) (s : Store)
    → own_agent agent workspace s ≡ ok ag
    → (lookup agent s.agents ≡ some ag) × ((workspace ≡ "") ⊎ (ag.workspace_id ≡ workspace))
unfolding own_agent get_agent
own_lem agent workspace ag s h = ground (arith, h)

-- What a promotion that goes through has found.
promote-found :
    (agent workspace env version : String) (s : Store)
    → (promote_agent_version agent workspace env version s).1 ≡ ok tt
    → ((not (env == "dev") && (not (env == "staging") && not (env == "prod"))) ≡ false)
      × ((ag : Agent) × (own_agent agent workspace s ≡ ok ag))
      × ((v : AgentVersion) × (lookup version s.agent_versions ≡ some v)
          × (v.agent_id ≡ agent)
          × ((promote_agent_version agent workspace env version s).0
              ≡ (set_agent_env_binding agent env version s).0))
unfolding promote_agent_version get_agent_version
promote-found agent workspace env version s h =
    elim (Bool-cases (not (env == "dev") && (not (env == "staging") && not (env == "prod")))) [
      | inl bad ↦ absurd (ground (arith, h, bad))
      | inr good ↦ elim (Result-cases (own_agent agent workspace s)) [
        | inl (e, missing) ↦ absurd (ground (arith, h, good, missing))
        | inr (ag, own) ↦ elim (Option-cases (lookup version s.agent_versions)) [
          | inl gone ↦ absurd (ground (arith, h, good, own, gone))
          | inr (v, found) ↦ (
            good,
            (ag, own),
            (v, found, ground (arith, h, good, own, found), ground (arith, h, good, own, found)),
          )
        ]
      ]
    ]

now_current :
    (agent env version : String) (v : AgentVersion) (s : Store)
    → lookup version s.agent_versions ≡ some v
    → v.agent_id ≡ agent
    → get_agent_current_version agent env (set_agent_env_binding agent env version s).0 ≡ ok v
unfolding set_agent_env_binding get_agent_current_version get_agent_version
now_current agent env version v s found own =
    let bound = insert env version (bindings_of agent s) in
    ground (
      arith,
      lookup-insert_self agent bound s.agent_bindings,
      lookup-insert_self env version (bindings_of agent s),
    )

-- When the promotion of a version goes through, the environment is dev, staging or prod, the agent
-- exists and is the workspace's or no workspace was asked for, the version is one of the agent's, and
-- it is the environment's current version right after the promotion.
pub promote-current :
    (agent workspace env version : String) (s : Store)
    → (promote_agent_version agent workspace env version s).1 ≡ ok tt
    → ((env ≡ "dev") ⊎ ((env ≡ "staging") ⊎ (env ≡ "prod")))
      × ((ag : Agent) × (lookup agent s.agents ≡ some ag)
          × ((workspace ≡ "") ⊎ (ag.workspace_id ≡ workspace)))
      × ((v : AgentVersion) × (lookup version s.agent_versions ≡ some v)
          × (v.agent_id ≡ agent)
          × (get_agent_current_version agent env
                (promote_agent_version agent workspace env version s).0
              ≡ ok v))
promote-current agent workspace env version s h =
    let (good, (ag, own), (v, found, of, moved)) = promote-found agent workspace env version s h in
    let (known, asked) = own_lem agent workspace ag s own in
    (
      named_env env good,
      (ag, known, asked),
      (
        v,
        found,
        of,
        ap (get_agent_current_version agent env) moved ∙ now_current agent env version v s found of,
      ),
    )
