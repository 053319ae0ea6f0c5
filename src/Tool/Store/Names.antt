-- ===== src/Tool/Store/Names.antt =====
-- No two tools of a workspace have one name.
use ecommerce_ops_agent.Base.{
  ◌≡◌, String, List, [], ◌∷◌, some, arith, string_eq, Bool-cases, inl, inr, refl, subst, sym,
}
use ecommerce_ops_agent.Base.Dict.{lookup, values, lookup-insert}
use ecommerce_ops_agent.Tool.Record.{Tool}
use ecommerce_ops_agent.Tool.Store.{
  Store, any, same_name, create_tool, create_tool_with_version, create_tool_version,
  update_tool_version_status, encrypt_tool_version_auth, create_invocation, complete_invocation,
  create_test_run,
}
use ecommerce_ops_agent.Tool.Store.History.{
  Write, create, create_with_version, add_version, set_status, encrypt_auth, invoke, complete,
  add_test_run, apply, run, any-lookup,
}

unfoldable pub UniqueNames : Store → Type 0
UniqueNames s =
    (i j : String) (t u : Tool)
    → lookup i s.tools ≡ some t
    → lookup j s.tools ≡ some u
    → t.workspace_id ≡ u.workspace_id
    → t.name ≡ u.name
    → i ≡ j

create-UniqueNames : (tool : Tool) (s : Store) → UniqueNames s → UniqueNames (create_tool tool s).0
unfolding UniqueNames create_tool
create-UniqueNames tool s unique i j t u =
    elim (Bool-cases (any (same_name tool) (values s.tools))) [
      | inl e ↦ rw (create_tool, e) (unique i j t u)
      | inr e ↦ λ ti uj ws nm. grind (
        arith,
        e,
        ti,
        uj,
        ws,
        nm,
        unique i j t u,
        lookup-insert i tool.id tool s.tools,
        lookup-insert j tool.id tool s.tools,
        any-lookup (same_name tool) i t s.tools e,
        any-lookup (same_name tool) j u s.tools e,
      )
    ]

keeps-UniqueNames : (s t : Store) → t.tools ≡ s.tools → UniqueNames s → UniqueNames t
unfolding UniqueNames
keeps-UniqueNames s t same unique i j v w =
    subst
      (λ d.
        lookup i d ≡ some v
        → lookup j d ≡ some w
        → v.workspace_id ≡ w.workspace_id
        → v.name ≡ w.name
        → i ≡ j)
      (sym same) (unique i j v w)

apply-UniqueNames : (w : Write) (s : Store) → UniqueNames s → UniqueNames (apply w s)
unfolding apply create_tool create_tool_with_version create_tool_version update_tool_version_status
    encrypt_tool_version_auth create_invocation complete_invocation create_test_run
apply-UniqueNames (create tool) s u = create-UniqueNames tool s u
apply-UniqueNames (create_with_version tool version) s u =
    keeps-UniqueNames (create_tool tool s).0 (create_tool_with_version tool version s).0
      (ground arith) (create-UniqueNames tool s u)
apply-UniqueNames (add_version version) s u =
    keeps-UniqueNames s (create_tool_version version s) refl u
apply-UniqueNames (set_status id status) s u =
    keeps-UniqueNames s (update_tool_version_status id status s).0 (ground arith) u
apply-UniqueNames (encrypt_auth id ciphertext) s u =
    keeps-UniqueNames s (encrypt_tool_version_auth id ciphertext s).0 (ground arith) u
apply-UniqueNames (invoke invocation) s u =
    keeps-UniqueNames s (create_invocation invocation s).0 (ground arith) u
apply-UniqueNames (complete id result status latency error) s u =
    keeps-UniqueNames s (complete_invocation id result status latency error s).0 (ground arith) u
apply-UniqueNames (add_test_run r) s u = keeps-UniqueNames s (create_test_run r s) refl u

-- Whatever is written to the store of tools, in any order and from a store in which it holds, no two
-- tools of one workspace have the same name.
pub run-UniqueNames : (writes : List Write) (s : Store) → UniqueNames s → UniqueNames (run writes s)
unfolding run
run-UniqueNames [] s u = u
run-UniqueNames (w ∷ ws) s u = run-UniqueNames ws (apply w s) (apply-UniqueNames w s u)
