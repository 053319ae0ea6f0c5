-- ===== src/Tool/Store/History.antt =====
-- Any sequence of the calls that change the store of tools.
use ecommerce_ops_agent.Base.{
  ◌≡◌, String, List, [], ◌∷◌, Bool, true, false, some, arith, string_eq, ℕ,
}
use ecommerce_ops_agent.Base.Int.{ℤ}
use ecommerce_ops_agent.Base.Dict.{Dict, lookup, values}
use ecommerce_ops_agent.Tool.Record.{Tool, ToolVersion, ToolTestRun, ToolInvocation}
use ecommerce_ops_agent.Tool.Store.{
  Store, any, create_tool, create_tool_with_version, create_tool_version,
  update_tool_version_status, encrypt_tool_version_auth, create_invocation, complete_invocation,
  create_test_run,
}

pub data Write : Type 0 where
  create : Tool → Write
  create_with_version : Tool → ToolVersion → Write
  add_version : ToolVersion → Write
  set_status : String → String → Write
  encrypt_auth : String → List ℕ → Write
  invoke : ToolInvocation → Write
  complete : String → String → String → ℤ → String → Write
  add_test_run : ToolTestRun → Write

unfoldable pub apply : Write → Store → Store
apply (create tool) s = (create_tool tool s).0
apply (create_with_version tool version) s = (create_tool_with_version tool version s).0
apply (add_version version) s = create_tool_version version s
apply (set_status id status) s = (update_tool_version_status id status s).0
apply (encrypt_auth id ciphertext) s = (encrypt_tool_version_auth id ciphertext s).0
apply (invoke invocation) s = (create_invocation invocation s).0
apply (complete id result status latency error) s =
    (complete_invocation id result status latency error s).0
apply (add_test_run run) s = create_test_run run s

unfoldable pub run : List Write → Store → Store
unfolding apply
run [] s = s
run (w ∷ ws) s = run ws (apply w s)

-- A test that no value passes fails on the one that is found.
pub any-lookup {ℓ} :
    {V : Type ℓ} (p : V → Bool) (k : String) (v : V) (d : Dict String V)
    → any p (values d) ≡ false
    → lookup k d ≡ some v
    → p v ≡ false
unfolding any lookup
any-lookup p k v [] none_pass found = ground (arith, found)
any-lookup p k v ((j, w) ∷ d) none_pass found = elim (string_eq.dec k j) [
  | yes same ↦ ground (arith, same, none_pass, found)
  | no other ↦ any-lookup p k v d (ground (arith, none_pass)) (ground (arith, other, found))
]

pub lookup-any {ℓ} :
    {V : Type ℓ} (p : V → Bool) (k : String) (v : V) (d : Dict String V)
    → lookup k d ≡ some v
    → p v ≡ true
    → any p (values d) ≡ true
unfolding any lookup
lookup-any p k v [] found passes = ground (arith, found)
lookup-any p k v ((j, w) ∷ d) found passes = elim (string_eq.dec k j) [
  | yes same ↦ ground (arith, same, found, passes)
  | no other ↦ ground (arith, lookup-any p k v d (ground (arith, other, found)) passes)
]
