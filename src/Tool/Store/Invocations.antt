-- ===== src/Tool/Store/Invocations.antt =====
-- A tool call of a conversation is recorded once, and its outcome is final.
use ecommerce_ops_agent.Base.{
  ◌≡◌, ◌≢◌, String, List, [], ◌∷◌, All, some, ok, err, arith, string_eq, inl, inr, refl, ◌⊎◌,
}
use ecommerce_ops_agent.Base.Int.{ℤ}
use ecommerce_ops_agent.Base.Dict.{lookup, lookup-insert}
use ecommerce_ops_agent.Tool.Record.{ToolInvocation}
use ecommerce_ops_agent.Tool.Store.{
  Store, same_call, create_tool, create_tool_with_version, create_tool_version,
  update_tool_version_status, encrypt_tool_version_auth, create_invocation, complete_invocation,
  create_test_run, invocation_exists,
}
use ecommerce_ops_agent.Tool.Store.History.{
  Write, create, create_with_version, add_version, set_status, encrypt_auth, invoke, complete,
  add_test_run, apply, run, lookup-any,
}

-- The write does not record another invocation under an id that is taken: ids are generated.
unfoldable pub Spares : String → Write → Type 0
Spares id (invoke invocation) = invocation.id ≢ id
Spares id _ = Unit

-- The call of a conversation is on record under an id.
unfoldable pub IsRecorded : String → String → String → Store → Type 0
IsRecorded id conversation call s =
    (invocation : ToolInvocation) × (lookup id s.invocations ≡ some invocation)
    × (invocation.conversation_id ≡ conversation)
    × (invocation.tool_call_id ≡ call)

abbrev completed : String → String → ℤ → String → ToolInvocation → ToolInvocation
completed result status latency error v = record v {
  result = result;
  status = status;
  latency_ms = latency;
  error = error;
}

-- A completion leaves an invocation as it is, or completes it while it runs.
complete_lem :
    (id other result status : String) (latency : ℤ) (error : String) (s : Store)
    (v : ToolInvocation)
    → lookup id s.invocations ≡ some v
    → ((lookup id (complete_invocation other result status latency error s).0.invocations ≡ some v)
        × ((other ≡ id) → v.status ≢ "running"))
      ⊎ ((lookup id (complete_invocation other result status latency error s).0.invocations
            ≡ some (completed result status latency error v))
          × (v.status ≡ "running"))
unfolding complete_invocation
complete_lem id other result status latency error s v h = elim (string_eq.dec other id) [
  | no differs ↦ inl (
    grind (
      arith,
      h,
      differs,
      λ (w : ToolInvocation).
          lookup-insert id other (completed result status latency error w) s.invocations,
    ),
    λ same. absurd (differs same),
  )
  | yes same ↦ elim (string_eq.dec v.status "running") [
    | no done ↦ inl (ground (arith, h, same, done), λ _. done)
    | yes running ↦ inr (
      ground (
        arith,
        h,
        same,
        running,
        lookup-insert id other (completed result status latency error v) s.invocations,
      ),
      running,
    )
  ]
]

apply-IsRecorded :
    (id conversation call : String) (w : Write) (s : Store)
    → Spares id w
    → IsRecorded id conversation call s
    → IsRecorded id conversation call (apply w s)
unfolding apply Spares IsRecorded create_tool create_tool_with_version create_tool_version
    update_tool_version_status encrypt_tool_version_auth create_invocation complete_invocation
    create_test_run
apply-IsRecorded id conversation call (create tool) s spared (v, h, c, t) =
    (v, ground (arith, h), c, t)
apply-IsRecorded id conversation call (create_with_version tool version) s spared (v, h, c, t) =
    (v, ground (arith, h), c, t)
apply-IsRecorded id conversation call (add_version version) s spared r = r
apply-IsRecorded id conversation call (set_status version status) s spared (v, h, c, t) =
    (v, ground (arith, h), c, t)
apply-IsRecorded id conversation call (encrypt_auth version ciphertext) s spared (v, h, c, t) =
    (v, ground (arith, h), c, t)
apply-IsRecorded id conversation call (invoke invocation) s spared (v, h, c, t) =
    (v, ground (arith, h, spared, lookup-insert id invocation.id invocation s.invocations), c, t)
apply-IsRecorded id conversation call (complete other result status latency error) s spared
      (v, h, c, t) =
    elim (complete_lem id other result status latency error s v h) [
      | inl (same, _) ↦ (v, same, c, t)
      | inr (changed, _) ↦ (completed result status latency error v, changed, c, t)
    ]
apply-IsRecorded id conversation call (add_test_run r) s spared recorded = recorded

run-IsRecorded :
    (id conversation call : String) (writes : List Write) (s : Store)
    → All (Spares id) writes
    → IsRecorded id conversation call s
    → IsRecorded id conversation call (run writes s)
unfolding run
run-IsRecorded id conversation call [] s spared r = r
run-IsRecorded id conversation call (w ∷ ws) s (here, there) r =
    run-IsRecorded id conversation call ws (apply w s) there
      (apply-IsRecorded id conversation call w s here r)

-- Once a tool call of a conversation has been recorded, no run of writes lets it be recorded again: the
-- second attempt fails and the store stays as it is. For a call with an id, where no later invocation
-- takes the first one's id.
pub invocation_once :
    (first second : ToolInvocation) (writes : List Write) (s : Store)
    → second.conversation_id ≡ first.conversation_id
    → second.tool_call_id ≡ first.tool_call_id
    → second.tool_call_id ≢ ""
    → All (Spares first.id) writes
    → (create_invocation first s).1 ≡ ok tt
    → let t = run writes (create_invocation first s).0 in
      create_invocation second t ≡ (t, err invocation_exists)
unfolding create_invocation IsRecorded
invocation_once first second writes s conversation call named spared created =
    let (v, held, c, k) =
      run-IsRecorded first.id first.conversation_id first.tool_call_id writes
        (create_invocation first s).0 spared
        (
          first,
          ground (arith, created, lookup-insert first.id first.id first s.invocations),
          refl,
          refl,
        ) in
    let t = run writes (create_invocation first s).0 in
    ground (
      arith,
      lookup-any (same_call second) first.id v t.invocations held
          (ground (arith, c, k, conversation, call, named)),
    )

apply_final :
    (id : String) (v : ToolInvocation) (w : Write) (s : Store)
    → Spares id w
    → v.status ≢ "running"
    → lookup id s.invocations ≡ some v
    → lookup id (apply w s).invocations ≡ some v
unfolding apply Spares create_tool create_tool_with_version create_tool_version
    update_tool_version_status encrypt_tool_version_auth create_invocation create_test_run
apply_final id v (create tool) s spared done h = ground (arith, h)
apply_final id v (create_with_version tool version) s spared done h = ground (arith, h)
apply_final id v (add_version version) s spared done h = h
apply_final id v (set_status version status) s spared done h = ground (arith, h)
apply_final id v (encrypt_auth version ciphertext) s spared done h = ground (arith, h)
apply_final id v (invoke invocation) s spared done h =
    ground (arith, h, spared, lookup-insert id invocation.id invocation s.invocations)
apply_final id v (complete other result status latency error) s spared done h =
    elim (complete_lem id other result status latency error s v h) [
      | inl (same, _) ↦ same
      | inr (_, running) ↦ absurd (done running)
    ]
apply_final id v (add_test_run r) s spared done h = h

-- The outcome of an invocation is final: once it no longer runs, no run of writes changes it.
pub run_final :
    (id : String) (v : ToolInvocation) (writes : List Write) (s : Store)
    → All (Spares id) writes
    → v.status ≢ "running"
    → lookup id s.invocations ≡ some v
    → lookup id (run writes s).invocations ≡ some v
unfolding run
run_final id v [] s spared done h = h
run_final id v (w ∷ ws) s (here, there) done h =
    run_final id v ws (apply w s) there done (apply_final id v w s here done h)
