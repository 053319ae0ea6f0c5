-- ===== src/Agent/Store/Bindings.antt =====
-- Which version of an agent an environment runs.
use ecommerce_ops_agent.Base.{◌≡◌, ◌≢◌, String, some, ok, err, arith, string_eq}
use ecommerce_ops_agent.Base.Dict.{lookup, insert, lookup-insert_self, lookup-insert_ne}
use ecommerce_ops_agent.Agent.Record.{AgentVersion}
use ecommerce_ops_agent.Agent.Store.{
  Store, bindings_of, set_agent_env_binding, get_agent_current_version, get_agent_version,
  version_not_found,
}

-- Binding an environment to a version of the agent makes it the environment's current version, and
-- leaves every other environment of the agent, and every other agent, with what it had.
pub get-set_binding :
    (agent env id other_agent other : String) (version : AgentVersion) (s : Store)
    → lookup id s.agent_versions ≡ some version
    → version.agent_id ≡ agent
    → other ≢ env
    → other_agent ≢ agent
    → let t = (set_agent_env_binding agent env id s).0 in
      (get_agent_current_version agent env t ≡ ok version)
      × (lookup other (bindings_of agent t) ≡ lookup other (bindings_of agent s))
      × (get_agent_current_version other_agent env t ≡ get_agent_current_version other_agent env s)
unfolding set_agent_env_binding get_agent_current_version get_agent_version
get-set_binding agent env id other_agent other version s found own differs apart =
    let bound = insert env id (bindings_of agent s) in
    (
      ground (
        arith,
        lookup-insert_self agent bound s.agent_bindings,
        lookup-insert_self env id (bindings_of agent s),
      ),
      ground (
        arith,
        lookup-insert_self agent bound s.agent_bindings,
        lookup-insert_ne other env id (bindings_of agent s) differs,
      ),
      ground (arith, lookup-insert_ne other_agent agent bound s.agent_bindings apart),
    )

-- A version that does not exist or that belongs to another agent is never bound: the request fails
-- and the store stays as it is.
pub set_binding_refused :
    (agent env id : String) (s : Store)
    → ((version : AgentVersion)
        → lookup id s.agent_versions ≡ some version
        → version.agent_id ≢ agent)
    → set_agent_env_binding agent env id s ≡ (s, err version_not_found)
unfolding set_agent_env_binding
set_binding_refused agent env id s foreign = grind (arith, foreign)
