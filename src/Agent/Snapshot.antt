-- ===== src/Agent/Snapshot.antt =====
-- internal/platform/agent/service.go: the immutable snapshot of an agent's version, and what it may
-- name. The resolvers of prompts, models, tools, knowledge bases and skills are interfaces there, and
-- parameters here: one that is nil is `none`, and its errors are texts. `F` is the type float32.
pub mod Checks
pub mod Closed
use ecommerce_ops_agent.Base.{
  String, List, [], ◌∷◌, Bool, true, ◌&&◌, ◌||◌, not, Option, none, some, Result, ok, err,
  if◌then◌else◌, ◌==◌, contains, string_eq, ◌>>=◌, nat_eq,
}
use ecommerce_ops_agent.Base.Int.{ℤ, pos, leb_ℤ}
use ecommerce_ops_agent.Prompt.{Prompt, PromptVersion}
use ecommerce_ops_agent.Tool.Record.{Tool}

pub record GenerationConfig (F : Type 0) : Type 0 where
  pub temperature : Option F
  pub top_p : Option F
  pub max_output_tokens : Option ℤ
  pub stop : List String
  pub seed : Option ℤ

pub record StoredSnapshot (F : Type 0) : Type 0 where
  pub id : String
  pub system_prompt_version_id : String
  pub user_prompt_version_id : String
  pub model_config_version_id : String
  pub generation_config : GenerationConfig F
  pub tool_version_ids : List String
  pub skill_version_ids : List String
  pub kb_ids : List String
  pub allow_network : Bool
  pub network_policy_set : Bool
  pub max_steps : ℤ

pub record AgentVersionConfig (F : Type 0) : Type 0 where
  pub system_prompt_version_id : String
  pub user_prompt_version_id : String
  pub model_config_version_id : String
  pub generation_config : GenerationConfig F
  pub tool_version_ids : List String
  pub skill_version_ids : List String
  pub kb_ids : List String
  pub allow_network : Option Bool
  pub max_steps : ℤ

-- internal/platform/skill/service.go
pub record Spec : Type 0 where
  pub version_id : String
  pub workspace_id : String
  pub name : String
  pub description : String
  pub body : String
  pub allowed_tools : List String
  pub allowed_kbs : List String
  pub disable_model_invocation : Bool
  pub requires_network : Bool
  pub status : String

pub record PromptResolver : Type 0 where
  -- with no variables
  pub render_by_version : String → Result String String
  pub get_prompt : String → Result String Prompt
  pub get_version : String → Result String PromptVersion

pub record ToolResolver : Type 0 where
  -- a version of the workspace that must be published
  pub validate_version : String → String → Result String String
  pub get_tool_meta : String → Result String Tool

pub record Resolvers : Type 0 where
  pub prompt : Option PromptResolver
  -- `ValidateConfigVersion` of a workspace and a version
  pub models : Option (String → String → Result String (Unit {0}))
  pub tools : Option ToolResolver
  -- `KBExists` of a workspace and a knowledge base
  pub kbs : Option (String → String → Result String Bool)
  -- `GetSpec`
  pub skills : Option (String → Result String Spec)

pub data SnapshotError : Type 0 where
  no_system_prompt no_model_config prompt_unconfigured models_unconfigured tools_unconfigured
        kbs_unconfigured skills_unconfigured foreign_prompt user_template_as_system
        not_a_user_template :
      SnapshotError
  prompt_failed render_failed model_refused marshal_failed : String → SnapshotError
  tool_refused kb_failed skill_failed : String → String → SnapshotError
  foreign_tool foreign_kb foreign_skill unpublished_skill network_refused : String → SnapshotError
  tool_missing kb_missing : String → String → SnapshotError

-- An error of a resolver, with what the service says about it.
abbrev pub wrap {ℓ} :
    {A : Type ℓ} → (String → SnapshotError) → Result String A → Result SnapshotError A
wrap f (ok a) = ok a
wrap f (err e) = err (f e)

abbrev pub or_nil {ℓ} : {A : Type ℓ} → SnapshotError → Option A → Result SnapshotError A
or_nil e none = err e
or_nil e (some a) = ok a

-- The loop of `uniqueStrings` with what it has seen.
unfoldable pub unique_from : List String → List String → List String
unique_from seen [] = []
unique_from seen (value ∷ values) =
    let skipped = unique_from seen values in
    let added = unique_from (value ∷ seen) values in
    if value == "" || contains seen value then skipped else value ∷ added

unfoldable pub unique_strings : List String → List String
unfolding unique_from
unique_strings values = unique_from [] values

-- The name of a published tool of the workspace.
unfoldable pub attached_tool : ToolResolver → String → String → Result SnapshotError String
attached_tool tools workspace version =
    wrap (tool_refused version) (tools.validate_version version workspace) >>= (λ id.
      wrap (tool_refused id) (tools.get_tool_meta id) >>= (λ meta.
        if not (meta.workspace_id == workspace) then err (foreign_tool id) else ok meta.name))

-- The names of the attached tools.
unfoldable pub tool_names :
    Option ToolResolver → String → List String → Result SnapshotError (List String)
unfolding attached_tool
tool_names tools workspace [] = ok []
tool_names tools workspace (version ∷ versions) = or_nil tools_unconfigured tools >>= (λ resolver.
    attached_tool resolver workspace version
    >>= (λ name. tool_names tools workspace versions >>= (λ names. ok (name ∷ names))))

unfoldable pub check_kbs :
    Option (String → String → Result String Bool)
    → String
    → List String
    → Result SnapshotError (Unit {0})
check_kbs kbs workspace [] = ok tt
check_kbs kbs workspace (id ∷ ids) = or_nil kbs_unconfigured kbs >>= (λ exists.
    wrap (kb_failed id) (exists workspace id)
    >>= (λ there. if not there then err (foreign_kb id) else check_kbs kbs workspace ids))

-- The first of the names that is not among those attached is the error.
unfoldable pub check_within :
    (String → SnapshotError) → List String → List String → Result SnapshotError (Unit {0})
check_within missing attached [] = ok tt
check_within missing attached (name ∷ names) =
    let rest = check_within missing attached names in
    if not (contains attached name) then err (missing name) else rest

unfoldable pub check_spec :
    String → Bool → List String → List String → String → Spec → Result SnapshotError (Unit {0})
unfolding check_within
check_spec workspace allow_network names kb_ids version sp =
    if not (sp.status == "published")
    then err (unpublished_skill sp.name)
    else if not (sp.workspace_id == workspace)
    then err (foreign_skill version)
    else if sp.requires_network && not allow_network
    then err (network_refused sp.name)
    else (check_within (tool_missing sp.name) names sp.allowed_tools
        >>= (λ _. check_within (kb_missing sp.name) kb_ids sp.allowed_kbs))

unfoldable pub check_skills :
    Option (String → Result String Spec)
    → String
    → Bool
    → List String
    → List String
    → List String
    → Result SnapshotError (Unit {0})
unfolding check_spec
check_skills skills workspace allow_network names kb_ids [] = ok tt
check_skills skills workspace allow_network names kb_ids (version ∷ versions) =
    or_nil skills_unconfigured skills >>= (λ get_spec.
      wrap (skill_failed version) (get_spec version) >>= (λ sp.
        check_spec workspace allow_network names kb_ids version sp
        >>= (λ _. check_skills skills workspace allow_network names kb_ids versions)))

abbrev pub network_allowed : Option Bool → Bool
network_allowed none = true
network_allowed (some allowed) = allowed

abbrev pub steps_or_default : ℤ → ℤ
steps_or_default n = if leb_ℤ n (pos 0) then pos 6 else n

module _ {F : Type 0} where
  -- The snapshot of an agent, from the pinned prompt's identifier.
  unfoldable pub stored_snapshot : String → String → AgentVersionConfig F → StoredSnapshot F
  unfolding unique_strings
  stored_snapshot agent pinned cfg = record {
    id = agent;
    system_prompt_version_id = pinned;
    user_prompt_version_id = cfg.user_prompt_version_id;
    model_config_version_id = cfg.model_config_version_id;
    generation_config = cfg.generation_config;
    tool_version_ids = unique_strings cfg.tool_version_ids;
    skill_version_ids = unique_strings cfg.skill_version_ids;
    kb_ids = unique_strings cfg.kb_ids;
    allow_network = network_allowed cfg.allow_network;
    network_policy_set = true;
    max_steps = steps_or_default cfg.max_steps;
  }

  -- `buildSnapshotJSON` before the snapshot is written as JSON.
  unfoldable pub build_snapshot :
      Resolvers → String → String → AgentVersionConfig F → Result SnapshotError (StoredSnapshot F)
  unfolding stored_snapshot tool_names check_kbs check_skills
  build_snapshot r agent workspace cfg = or_nil prompt_unconfigured r.prompt >>= (λ prompt.
      wrap prompt_failed (prompt.get_version cfg.system_prompt_version_id) >>= (λ pinned.
        let snap = stored_snapshot agent pinned.id cfg in
        tool_names r.tools workspace snap.tool_version_ids >>= (λ names.
          check_kbs r.kbs workspace snap.kb_ids >>= (λ _.
            check_skills r.skills workspace snap.allow_network names snap.kb_ids
              snap.skill_version_ids
            >>= (λ _. ok snap)))))
