-- ===== src/Agent/Service.antt =====
-- internal/platform/agent/service.go over the in-memory store: creating agents and their versions, and
-- promoting a version to an environment. `marshal` and `unmarshal` are encoding/json's for the
-- snapshot. The in-memory store writes an agent and its first version in one call.
pub mod Versions
pub mod Promotion
pub mod Examples
use ecommerce_ops_agent.Base.{
  ℕ, suc, String, List, [], ◌∷◌, Bool, true, false, ◌&&◌, ◌||◌, not, Option, none, some, Result, ok,
  err, if◌then◌else◌, ◌==◌, string_eq, length, ◌>>=◌, map,
}
use ecommerce_ops_agent.Base.Int.{ℤ}
use ecommerce_ops_agent.Agent.Record.{Agent, AgentVersion}
use ecommerce_ops_agent.Agent.Store.{
  Store, Error, get_agent, create_agent_with_version, create_agent_version, get_agent_version,
  list_agent_versions, set_agent_env_binding,
}
use ecommerce_ops_agent.Agent.Snapshot.{
  GenerationConfig, StoredSnapshot, AgentVersionConfig, SnapshotError, Resolvers, build_snapshot,
  marshal_failed, wrap,
}
use ecommerce_ops_agent.Agent.Dependencies.{validate_version_dependencies}

pub data ServiceError : Type 0 where
  in_store : Error → ServiceError
  in_snapshot : SnapshotError → ServiceError
  foreign_agent foreign_version bad_env : ServiceError
  unmarshal_failed : String → String → ServiceError

pub record CreateAgentRequest (F : Type 0) : Type 0 where
  pub workspace_id : String
  pub name : String
  pub template : String
  pub system_prompt_version_id : String
  pub user_prompt_version_id : String
  pub model_config_version_id : String
  pub generation_config : GenerationConfig F
  pub tool_version_ids : List String
  pub skill_version_ids : List String
  pub kb_ids : List String
  pub allow_network : Option Bool
  pub max_steps : ℤ
  pub created_by : String

pub record AgentVersionView (F : Type 0) : Type 0 where
  pub id : String
  pub agent_id : String
  pub version : ℕ
  pub config : AgentVersionConfig F
  pub environments : List String
  pub created_by : String
  pub created_at : ℕ

abbrev pub from_store {ℓ} : {A : Type ℓ} → Result Error A → Result ServiceError A
from_store (ok a) = ok a
from_store (err e) = err (in_store e)

abbrev pub from_snapshot {ℓ} : {A : Type ℓ} → Result SnapshotError A → Result ServiceError A
from_snapshot (ok a) = ok a
from_snapshot (err e) = err (in_snapshot e)

-- The agent, when it is the workspace's or no workspace is asked for.
pub own_agent : String → String → Store → Result ServiceError Agent
own_agent agent workspace s = from_store (get_agent agent s) >>= (λ ag.
    if not (workspace == "") && not (ag.workspace_id == workspace)
    then err foreign_agent
    else ok ag)

pub promote_agent_version :
    String → String → String → String → Store → Store × Result ServiceError (Unit {0})
unfolding own_agent
promote_agent_version agent workspace env version s =
    if not (env == "dev") && (not (env == "staging") && not (env == "prod"))
    then (s, err bad_env)
    else elim (own_agent agent workspace s) [
      | err e ↦ (s, err e)
      | ok _ ↦ elim (get_agent_version version s) [
        | err e ↦ (s, err (in_store e))
        | ok v ↦ if not (v.agent_id == agent) then (s, err foreign_version) else (
          (set_agent_env_binding agent env version s).0,
          from_store (set_agent_env_binding agent env version s).1,
        )
      ]
    ]

module _ {F : Type 0} where
  pub config_of : CreateAgentRequest F → AgentVersionConfig F
  config_of req = record {
    system_prompt_version_id = req.system_prompt_version_id;
    user_prompt_version_id = req.user_prompt_version_id;
    model_config_version_id = req.model_config_version_id;
    generation_config = req.generation_config;
    tool_version_ids = req.tool_version_ids;
    skill_version_ids = req.skill_version_ids;
    kb_ids = req.kb_ids;
    allow_network = req.allow_network;
    max_steps = req.max_steps;
  }

  -- What a snapshot shows to be edited again. A snapshot without a network policy allows the network.
  pub view_config : StoredSnapshot F → AgentVersionConfig F
  view_config snap = record {
    system_prompt_version_id = snap.system_prompt_version_id;
    user_prompt_version_id = snap.user_prompt_version_id;
    model_config_version_id = snap.model_config_version_id;
    generation_config = snap.generation_config;
    tool_version_ids = snap.tool_version_ids;
    skill_version_ids = snap.skill_version_ids;
    kb_ids = snap.kb_ids;
    allow_network = some (if not snap.network_policy_set then true else snap.allow_network);
    max_steps = snap.max_steps;
  }

  pub version_view :
      (String → Result String (StoredSnapshot F))
      → AgentVersion
      → Result ServiceError (AgentVersionView F)
  unfolding view_config
  version_view unmarshal v = elim (unmarshal v.snapshot_json) [
    | err e ↦ err (unmarshal_failed v.id e)
    | ok snap ↦ ok (record {
      id = v.id;
      agent_id = v.agent_id;
      version = v.version;
      config = view_config snap;
      environments = [];
      created_by = v.created_by;
      created_at = v.created_at;
    })
  ]

  -- `buildSnapshotJSON`
  pub build_snapshot_json :
      Resolvers
      → (StoredSnapshot F → Result String String)
      → String
      → String
      → AgentVersionConfig F
      → Result SnapshotError String
  build_snapshot_json r marshal agent workspace cfg =
      build_snapshot r agent workspace cfg >>= (λ snap. wrap marshal_failed (marshal snap))

  -- What the first version's configuration is checked for before the agent is made.
  pub create_agent :
      Resolvers
      → (StoredSnapshot F → Result String String)
      → ℕ
      → String
      → String
      → CreateAgentRequest F
      → Store
      → Store × Result ServiceError Agent
  unfolding config_of build_snapshot_json
  create_agent r marshal now id version_id req s =
      elim (validate_version_dependencies r req.workspace_id (config_of req)
        >>= (λ _. build_snapshot_json r marshal id req.workspace_id (config_of req))) [
          | err e ↦ (s, err (in_snapshot e))
          | ok json ↦
              let ag : Agent = record {
                id = id;
                workspace_id = req.workspace_id;
                name = req.name;
                template = req.template;
                created_by = req.created_by;
                created_at = now;
                updated_at = now;
              } in
              let first : AgentVersion = record {
                id = version_id;
                agent_id = id;
                version = 1;
                snapshot_json = json;
                created_by = req.created_by;
                created_at = now;
              } in
              (create_agent_with_version ag first s, ok ag)
        ]

  -- The version that is to be made, or why there is none.
  pub new_version :
      Resolvers
      → (StoredSnapshot F → Result String String)
      → ℕ
      → String
      → String
      → String
      → AgentVersionConfig F
      → String
      → Store
      → Result ServiceError AgentVersion
  unfolding own_agent build_snapshot_json
  new_version r marshal now id agent workspace cfg actor s = own_agent agent workspace s >>= (λ ag.
      from_snapshot (validate_version_dependencies r ag.workspace_id cfg) >>= (λ _.
        from_snapshot (build_snapshot_json r marshal agent ag.workspace_id cfg) >>= (λ json.
          ok (record {
            id = id;
            agent_id = agent;
            version = suc (length (list_agent_versions agent s));
            snapshot_json = json;
            created_by = actor;
            created_at = now;
          }))))

  pub create_version :
      Resolvers
      → (StoredSnapshot F → Result String String)
      → (String → Result String (StoredSnapshot F))
      → ℕ
      → String
      → String
      → String
      → AgentVersionConfig F
      → String
      → Store
      → Store × Result ServiceError (AgentVersionView F)
  unfolding new_version version_view
  create_version r marshal unmarshal now id agent workspace cfg actor s =
      elim (new_version r marshal now id agent workspace cfg actor s) [
        | err e ↦ (s, err e)
        | ok v ↦ (create_agent_version v s, version_view unmarshal v)
      ]
