-- ===== src/Agent/Dependencies.antt =====
-- `validateVersionDependencies` of internal/platform/agent/service.go: the prompts and the model that a
-- version of an agent may name.
use ecommerce_ops_agent.Base.{
  String, [], ◌∷◌, Bool, true, false, ◌&&◌, ◌||◌, not, ok, err, Result, if◌then◌else◌, ◌==◌,
  string_eq, nat_eq, length, drop, ◌-◌, leb, ◌>>=◌,
}
use ecommerce_ops_agent.Agent.Snapshot.{
  PromptResolver, Resolvers, AgentVersionConfig, SnapshotError, no_system_prompt, no_model_config,
  prompt_unconfigured, models_unconfigured, foreign_prompt, user_template_as_system,
  not_a_user_template, prompt_failed, render_failed, model_refused, wrap, or_nil,
}
use ecommerce_ops_agent.KnowledgeBase.Runes.{Text, trim_space}
use Prim.Native.String.{[] as no_chars, ◌∷◌ as ◌∷s◌}
use Prim.Native.Char.{code}

-- `strings.HasSuffix(strings.TrimSpace(category), "-user-template")`
unfoldable pub runes : String → Text
runes no_chars = []
runes (c ∷s cs) = code c ∷ runes cs

unfoldable pub same_text : Text → Text → Bool
same_text [] [] = true
same_text [] (_ ∷ _) = false
same_text (_ ∷ _) [] = false
same_text (c ∷ cs) (d ∷ ds) = c == d && same_text cs ds

unfoldable pub is_user_prompt_category : String → Bool
unfolding runes same_text trim_space
is_user_prompt_category category =
    let text = trim_space (runes category) in
    let suffix = runes "-user-template" in
    leb (length suffix) (length text) && same_text (drop (length text - length suffix) text) suffix

-- What the service says of the prompt that the agent's first message is rendered from.
unfoldable pub check_user_prompt :
    PromptResolver → String → String → Result SnapshotError (Unit {0})
unfolding is_user_prompt_category
check_user_prompt prompt workspace version =
    if version == ""
    then ok tt
    else (wrap prompt_failed (prompt.get_version version) >>= (λ v.
        wrap prompt_failed (prompt.get_prompt v.prompt_id) >>= (λ p.
          if not (p.workspace_id == workspace) || not (is_user_prompt_category p.category)
          then err not_a_user_template
          else ok tt)))

unfoldable pub check_system_prompt :
    PromptResolver → String → String → Result SnapshotError (Unit {0})
unfolding is_user_prompt_category
check_system_prompt prompt workspace version =
    wrap prompt_failed (prompt.get_version version) >>= (λ v.
      wrap prompt_failed (prompt.get_prompt v.prompt_id) >>= (λ p.
        if not (p.workspace_id == workspace)
        then err foreign_prompt
        else if is_user_prompt_category p.category
        then err user_template_as_system
        else (wrap render_failed (prompt.render_by_version version) >>= (λ _. ok tt))))

unfoldable pub validate_version_dependencies :
    {F : Type 0} → Resolvers → String → AgentVersionConfig F → Result SnapshotError (Unit {0})
unfolding check_system_prompt check_user_prompt
validate_version_dependencies r workspace cfg =
    if cfg.system_prompt_version_id == ""
    then err no_system_prompt
    else if cfg.model_config_version_id == ""
    then err no_model_config
    else (or_nil prompt_unconfigured r.prompt >>= (λ prompt.
        check_system_prompt prompt workspace cfg.system_prompt_version_id >>= (λ _.
          check_user_prompt prompt workspace cfg.user_prompt_version_id >>= (λ _.
            or_nil models_unconfigured r.models >>= (λ validate.
              wrap model_refused (validate workspace cfg.model_config_version_id))))))
