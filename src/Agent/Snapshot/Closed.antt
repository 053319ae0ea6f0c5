-- ===== src/Agent/Snapshot/Closed.antt =====
-- What a snapshot that was built may name.
use ecommerce_ops_agent.Base.{◌≡◌, subst, refl, String, List, ok, All, string_eq}
use ecommerce_ops_agent.Agent.Snapshot.{
  StoredSnapshot, AgentVersionConfig, Resolvers, wrap, or_nil, tool_names, check_kbs, check_skills,
  build_snapshot, stored_snapshot, prompt_unconfigured, prompt_failed,
}
use ecommerce_ops_agent.Agent.Snapshot.Checks.{
  Names, IsOwnKb, IsUsable, bind_ok, kbs_own, skills-IsUsable, tools_attached, ok_inj,
}

module _ {F : Type 0} where
  -- Every tool, knowledge base and skill that the snapshot names is the workspace's, and each of the
  -- skills has the tools, the knowledge bases and the network that it asks for.
  pub IsClosed : Resolvers → String → StoredSnapshot F → Type 0
  IsClosed r workspace snap =
      (names : List String) × Names r.tools workspace snap.tool_version_ids names
      × All (IsOwnKb r.kbs workspace) snap.kb_ids
      × All (IsUsable r.skills workspace snap.allow_network names snap.kb_ids)
          snap.skill_version_ids

  pub build_snapshot-IsClosed :
      (r : Resolvers) (agent workspace : String) (cfg : AgentVersionConfig F)
      (snap : StoredSnapshot F)
      → build_snapshot r agent workspace cfg ≡ ok snap
      → IsClosed r workspace snap
  unfolding build_snapshot IsClosed
  build_snapshot-IsClosed r agent workspace cfg snap h =
      let (prompt, _, h1) = bind_ok (or_nil prompt_unconfigured r.prompt) _ snap h in
      let (pinned, _, h2) =
        bind_ok (wrap prompt_failed (prompt.get_version cfg.system_prompt_version_id)) _ snap h1 in
      let built : StoredSnapshot F = stored_snapshot agent pinned.id cfg in
      let (names, tools, h3) =
        bind_ok (tool_names r.tools workspace built.tool_version_ids) _ snap h2 in
      let (u, kbs, h4) = bind_ok (check_kbs r.kbs workspace built.kb_ids) _ snap h3 in
      let (v, skills, done) =
        bind_ok
          (check_skills r.skills workspace built.allow_network names built.kb_ids
            built.skill_version_ids)
          _ snap h4 in
      subst (IsClosed r workspace) (ok_inj refl done) (
        names,
        tools_attached r.tools workspace built.tool_version_ids names tools,
        kbs_own r.kbs workspace built.kb_ids u kbs,
        skills-IsUsable r.skills workspace built.allow_network names built.kb_ids
            built.skill_version_ids v skills,
      )
