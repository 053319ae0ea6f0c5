-- ===== src/Approval/Store/History.antt =====
-- Any sequence of calls on the approval store, with the times and tokens that they run with.
use ecommerce_ops_agent.Base.{ℕ, ◌≡◌, ◌≢◌, String, List, [], ◌∷◌, All, arith, string_eq}
use ecommerce_ops_agent.Base.Dict.{lookup}
use ecommerce_ops_agent.Approval.Store.{
  Store, new_memory_store, gate_create_pending, resolve_pending, begin_execution, renew_execution,
  complete_execution, fail_execution, save_checkpoint,
}
use ecommerce_ops_agent.Approval.Store.Lifecycle.{
  AllSound, create-AllSound, resolve-AllSound, begin-AllSound, renew-AllSound, complete-AllSound,
  fail-AllSound,
}

pub data Call : Type 0 where
  create : (id workspace conversation action payload : String) → Call
  decide : (id workspace status approver : String) → Call
  start : (token id conversation : String) → Call
  renew complete : (id token : String) → Call
  fail : (id token message : String) → Call
  save : (id conversation : String) (state : List ℕ) → Call

unfoldable pub step : Store → ℕ × Call → Store
step s (now, create id workspace conversation action payload) =
    gate_create_pending now id workspace conversation action payload s
step s (now, decide id workspace status approver) =
    (resolve_pending now id workspace status approver s).0
step s (now, start token id conversation) = (begin_execution now token id conversation s).0
step s (now, renew id token) = (renew_execution now id token s).0
step s (now, complete id token) = (complete_execution now id token s).0
step s (now, fail id token message) = (fail_execution now id token message s).0
step s (now, save id conversation state) = (save_checkpoint id conversation state s).0

unfoldable pub run : Store → List (ℕ × Call) → Store
unfolding step
run s [] = s
run s (c ∷ cs) = run (step s c) cs

-- A token that `uuid.NewString` makes is not empty.
abbrev pub HasToken : ℕ × Call → Type 0
HasToken (now, start token id conversation) = token ≢ ""
HasToken _ = Unit {0}

pub save-approvals :
    (id conversation : String) (state : List ℕ) (s : Store)
    → (save_checkpoint id conversation state s).0.approvals ≡ s.approvals
unfolding save_checkpoint
save-approvals id conversation state s = ground arith

step-AllSound :
    (s : Store) (c : ℕ × Call) → HasToken c → AllSound s.approvals → AllSound (step s c).approvals
unfolding step
step-AllSound s (now, create id w c a p) t h = create-AllSound now id w c a p s h
step-AllSound s (now, decide id w st ap) t h = resolve-AllSound now id w st ap s h
step-AllSound s (now, start token id c) t h = begin-AllSound now token id c s t h
step-AllSound s (now, renew id token) t h = renew-AllSound now id token s h
step-AllSound s (now, complete id token) t h = complete-AllSound now id token s h
step-AllSound s (now, fail id token m) t h = fail-AllSound now id token m s h
step-AllSound s (now, save id c st) t h = rw (save-approvals id c st s) h

pub run-AllSound :
    (s : Store) (cs : List (ℕ × Call))
    → All HasToken cs
    → AllSound s.approvals
    → AllSound (run s cs).approvals
unfolding run
run-AllSound s [] t h = h
run-AllSound s (c ∷ cs) t h = run-AllSound (step s c) cs t.1 (step-AllSound s c t.0 h)

-- After any history of calls from the empty store whose claim tokens are not empty, of every approval:
-- its counter of attempts is at most five, and zero exactly while its execution has not started; if
-- the execution has started, the approval is approved; and it has a token and a lease exactly while
-- it executes.
pub run_sound :
    (cs : List (ℕ × Call)) → All HasToken cs → AllSound (run new_memory_store cs).approvals
unfolding new_memory_store lookup
run_sound cs t = run-AllSound _ cs t (λ k a e. cc)
