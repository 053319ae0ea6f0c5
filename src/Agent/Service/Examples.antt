-- ===== src/Agent/Service/Examples.antt =====
-- An agent of one workspace with a tool, a knowledge base and a skill that needs both.
use ecommerce_ops_agent.Base.{
  ◌≡◌, ◌⊎◌, refl, ℕ, String, [], ◌∷◌, true, false, none, some, Result, ok, err, string_eq, nat_eq,
  if◌then◌else◌, ◌==◌,
}
use ecommerce_ops_agent.Base.Dict.{lookup}
use ecommerce_ops_agent.Base.Int.{pos}
use ecommerce_ops_agent.Base.Sort.{sort}
use ecommerce_ops_agent.Prompt.{Prompt, PromptVersion}
use ecommerce_ops_agent.Tool.Record.{Tool}
use ecommerce_ops_agent.Agent.Record.{Agent, AgentVersion}
use ecommerce_ops_agent.Agent.Store.{
  Store, get_agent, get_agent_version, get_agent_current_version, list_agent_versions,
  set_agent_env_binding,
}
use ecommerce_ops_agent.Agent.Snapshot.{
  GenerationConfig, StoredSnapshot, AgentVersionConfig, Spec, Resolvers, unique_from,
  unique_strings, attached_tool, tool_names, check_kbs, check_within, check_spec, check_skills,
  stored_snapshot, build_snapshot,
}
use ecommerce_ops_agent.Agent.Dependencies.{
  runes, same_text, is_user_prompt_category, check_user_prompt, check_system_prompt,
  validate_version_dependencies,
}
use ecommerce_ops_agent.Agent.Service.{
  AgentVersionView, create_version, new_version, promote_agent_version, own_agent,
  build_snapshot_json, version_view, view_config,
}
use ecommerce_ops_agent.Agent.Service.Versions.{IsNext, create_version-IsNext}
use ecommerce_ops_agent.Agent.Service.Promotion.{promote-current}
use ecommerce_ops_agent.KnowledgeBase.Runes.{trim_space}

abbrev prompt : Prompt
prompt = record {
  id = "p";
  workspace_id = "w";
  name = "Support";
  category = "agent";
  created_by = "ann";
  created_at = 1;
  updated_at = 1;
}

abbrev pinned : PromptVersion
pinned = record {
  id = "pv";
  prompt_id = "p";
  version = 1;
  template = "You help.";
  variables_schema = "{}";
  hash = "h";
  token_estimate = pos 2;
  created_by = "ann";
  created_at = 1;
}

abbrev tool : Tool
tool = record {
  id = "t";
  workspace_id = "w";
  name = "orders";
  source_type = "http";
  description = "Orders.";
  sensitive = false;
  created_by = "ann";
  created_at = 1;
  updated_at = 1;
}

abbrev skill : Spec
skill = record {
  version_id = "sv";
  workspace_id = "w";
  name = "refunds";
  description = "Refunds.";
  body = "Do.";
  allowed_tools = "orders" ∷ [];
  allowed_kbs = "kb" ∷ [];
  disable_model_invocation = false;
  requires_network = true;
  status = "published";
}

abbrev resolvers : Resolvers
resolvers = record {
  prompt = some (record {
    render_by_version = λ _. ok "You help.";
    get_prompt = λ id. if id == "p" then ok prompt else err "no prompt";
    get_version = λ id. if id == "pv" then ok pinned else err "no version";
  });
  models = some (λ workspace id. if id == "m" then ok tt else err "no model");
  tools = some (record {
    validate_version = λ id workspace. if id == "tv" then ok "t" else err "no version";
    get_tool_meta = λ id. if id == "t" then ok tool else err "no tool";
  });
  kbs = some (λ workspace id. ok (id == "kb"));
  skills = some (λ id. if id == "sv" then ok skill else err "no skill");
}

abbrev generation : GenerationConfig ℕ
generation = record {
  temperature = some 0;
  top_p = none;
  max_output_tokens = none;
  stop = [];
  seed = none;
}

abbrev config : AgentVersionConfig ℕ
config = record {
  system_prompt_version_id = "pv";
  user_prompt_version_id = "";
  model_config_version_id = "m";
  generation_config = generation;
  tool_version_ids = "tv" ∷ "tv" ∷ [];
  skill_version_ids = "sv" ∷ [];
  kb_ids = "kb" ∷ "" ∷ [];
  allow_network = none;
  max_steps = pos 0;
}

abbrev marshal : StoredSnapshot ℕ → Result String String
marshal snap = ok snap.id

-- What a text of the agent's stands for.
abbrev read_snapshot : String → Result String (StoredSnapshot ℕ)
read_snapshot text = ok (record {
  id = text;
  system_prompt_version_id = "pv";
  user_prompt_version_id = "";
  model_config_version_id = "m";
  generation_config = generation;
  tool_version_ids = "tv" ∷ [];
  skill_version_ids = "sv" ∷ [];
  kb_ids = "kb" ∷ [];
  allow_network = true;
  network_policy_set = true;
  max_steps = pos 6;
})

abbrev helper : Agent
helper = record {
  id = "a";
  workspace_id = "w";
  name = "Helper";
  template = "";
  created_by = "ann";
  created_at = 1;
  updated_at = 1;
}

abbrev store : Store
store = record {
  agents = ("a", helper) ∷ [];
  agent_versions = [];
  agent_bindings = [];
  conversations = [];
  messages = [];
  conversation_turns = [];
}

abbrev first : AgentVersion
first = record {
  id = "v1";
  agent_id = "a";
  version = 1;
  snapshot_json = "a";
  created_by = "ann";
  created_at = 2;
}

abbrev view : AgentVersionView ℕ
view = record {
  id = "v1";
  agent_id = "a";
  version = 1;
  config = record {
    system_prompt_version_id = "pv";
    user_prompt_version_id = "";
    model_config_version_id = "m";
    generation_config = generation;
    tool_version_ids = "tv" ∷ [];
    skill_version_ids = "sv" ∷ [];
    kb_ids = "kb" ∷ [];
    allow_network = some true;
    max_steps = pos 6;
  };
  environments = [];
  created_by = "ann";
  created_at = 2;
}

created_view :
    (create_version resolvers marshal read_snapshot 2 "v1" "a" "w" config "ann" store).1 ≡ ok view
unfolding create_version new_version own_agent get_agent validate_version_dependencies
    check_system_prompt check_user_prompt is_user_prompt_category runes same_text trim_space
    build_snapshot_json build_snapshot stored_snapshot unique_strings unique_from tool_names
    attached_tool check_kbs check_skills check_spec check_within version_view view_config
    list_agent_versions lookup string_eq nat_eq sort
created_view = refl

create_version-IsNext_example :
    (v : AgentVersion) × IsNext resolvers marshal read_snapshot store "a" "w" v
    × (get_agent_current_version "a" "dev"
          (create_version resolvers marshal read_snapshot 2 "v1" "a" "w" config "ann" store).0
        ≡ ok v)
    × (1 ≡ v.version)
create_version-IsNext_example =
    create_version-IsNext resolvers marshal read_snapshot 2 "v1" "a" "w" config "ann" store view
      created_view

abbrev stored : Store
stored = record {
  agents = ("a", helper) ∷ [];
  agent_versions = ("v1", first) ∷ [];
  agent_bindings = [];
  conversations = [];
  messages = [];
  conversation_turns = [];
}

goes_through : (promote_agent_version "a" "w" "prod" "v1" stored).1 ≡ ok tt
unfolding promote_agent_version own_agent get_agent get_agent_version set_agent_env_binding lookup
    string_eq
goes_through = refl

abbrev production : String
production = "prod"

abbrev asked : String
asked = "w"

promote-current_example :
    ((production ≡ "dev") ⊎ ((production ≡ "staging") ⊎ (production ≡ "prod")))
    × ((ag : Agent) × (lookup "a" stored.agents ≡ some ag)
        × ((asked ≡ "") ⊎ (ag.workspace_id ≡ "w")))
    × ((v : AgentVersion) × (lookup "v1" stored.agent_versions ≡ some v)
        × (v.agent_id ≡ "a")
        × (get_agent_current_version "a" "prod" (promote_agent_version "a" "w" "prod" "v1" stored).0
            ≡ ok v))
promote-current_example = promote-current "a" "w" "prod" "v1" stored goes_through
