-- ===== src/Approval/Store/Examples.antt =====
-- One approval through its states.
use text.Mathlib.TextEquality.{eq_iff}
use ecommerce_ops_agent.Base.{
  ℕ, ◌+◌, ◌≤◌, String, ◌≡◌, ◌≢◌, ◌↔◌, refl, inr, List, [], ◌∷◌, All, true, none, some, ok, err,
  arith, string_eq,
}
use ecommerce_ops_agent.Base.Dict.{lookup}
use ecommerce_ops_agent.Approval.Record.{
  Approval, approved, completed, executing, execution_unavailable, lease, max_attempts,
}
use ecommerce_ops_agent.Approval.Store.{
  Store, new_memory_store, is_ready, begin_execution, claim, refused, complete_execution,
  save_checkpoint, checkpoint_for_approval, gate_checkpoint, get,
}
use ecommerce_ops_agent.Approval.Store.Lifecycle.{IsSound, AllSound}
use ecommerce_ops_agent.Approval.Store.History.{
  Call, create, decide, start, complete, save, run, run_sound,
}
use ecommerce_ops_agent.Approval.Store.Exclusive.{ForeignBefore, begin_exclusive}
use ecommerce_ops_agent.Approval.Store.Attempts.{
  claims, attempts, claims_bounded, IsCompleted, completed_final,
}
use ecommerce_ops_agent.Approval.Store.Listing.{ready_iff_claimed}
use ecommerce_ops_agent.Approval.Store.Checkpoints.{checkpoint-save}

abbrev agreed : Approval
agreed = record {
  id = "a1";
  workspace_id = "w1";
  conversation_id = "c1";
  action = "refund";
  payload = "";
  status = approved;
  approver_id = "u1";
  created_at = 1;
  resolved_at = some 2;
  execution_status = "not_started";
  execution_started_at = none;
  execution_completed_at = none;
  execution_error = "";
  execution_lease_until = none;
  execution_attempts = 0;
  execution_token = "";
}

abbrev ready : Store
ready = record {
  approvals = ("a1", agreed) ∷ [];
  checkpoints = ("a1", record { conversation_id = "c1"; state = 1 ∷ [] }) ∷ [];
}

token_not_empty : ◌≢◌ {A = String} "t1" ""
token_not_empty = ground (arith, eq_iff "t1" "")

token2_not_empty : ◌≢◌ {A = String} "t2" ""
token2_not_empty = ground (arith, eq_iff "t2" "")

tokens_differ : ◌≢◌ {A = String} "t1" "t2"
tokens_differ = ground (arith, eq_iff "t1" "t2")

abbrev day : List (ℕ × Call)
day =
    (1, create "a1" "w1" "c1" "refund" "")
    ∷ (2, decide "a1" "w1" "approved" "u1")
    ∷ (3, start "t1" "a1" "c1")
    ∷ (4, complete "a1" "t1")
    ∷ []

run_sound_example : AllSound (run new_memory_store day).approvals
run_sound_example = run_sound day (tt, (tt, (token_not_empty, (tt, tt))))

begun : (begin_execution 3 "t1" "a1" "c1" ready).1 ≡ ok "t1"
unfolding begin_execution claim refused lookup string_eq
begun = refl

-- Another worker tries to claim, and to complete under its own token.
abbrev others : List (ℕ × Call)
others = (4, start "t2" "a1" "c1") ∷ (5, complete "a1" "t2") ∷ []

others-Foreign : All (ForeignBefore "a1" "t1" (3 + lease)) others
others-Foreign = ((omega arith, tt), ((omega arith, inr tokens_differ), tt))

begin_exclusive_example :
    (begin_execution 6 "t3" "a1" "c1" (run (begin_execution 3 "t1" "a1" "c1" ready).0 others)
      ≡ (run (begin_execution 3 "t1" "a1" "c1" ready).0 others, err execution_unavailable))
    × ((complete_execution 6 "a1" "t1" (run (begin_execution 3 "t1" "a1" "c1" ready).0 others)).1
        ≡ ok tt)
begin_exclusive_example =
    begin_exclusive 3 6 "t1" "t3" "a1" "c1" "c1" ready others begun others-Foreign (omega arith)

not_executing : ◌≢◌ {A = String} "not_started" executing
not_executing = ground (arith, eq_iff "not_started" "executing")

agreed-IsSound : IsSound agreed
agreed-IsSound = record {
  capped = omega arith;
  permitted = λ e. refl;
  counted = λ e. absurd (e refl);
  untouched = λ e. refl;
  held = λ e. absurd (not_executing e);
  leased = λ e. absurd (not_executing e);
  free = λ e. refl;
  unleased = λ e. refl;
}

ready-AllSound : AllSound ready.approvals
unfolding lookup
ready-AllSound k a e = ground (arith, agreed-IsSound)

claims_bounded_example : claims "a1" ready others + attempts "a1" ready ≤ max_attempts
claims_bounded_example =
    claims_bounded "a1" ready others ready-AllSound (token2_not_empty, (tt, tt)) (tt, (tt, tt))

abbrev over : Store
over = record {
  approvals = ("a1", record agreed { execution_status = completed; execution_attempts = 1 }) ∷ [];
  checkpoints = [];
}

over-IsCompleted : IsCompleted "a1" over
unfolding lookup string_eq
over-IsCompleted =
    (record agreed { execution_status = completed; execution_attempts = 1 }, refl, refl, refl)

completed_final_example :
    begin_execution 9 "t2" "a1" "c1" (run over others)
    ≡ (run over others, err execution_unavailable)
completed_final_example =
    completed_final "a1" over others 9 "t2" "c1" (tt, (tt, tt)) over-IsCompleted

agreed_held : lookup "a1" ready.approvals ≡ some agreed
unfolding lookup string_eq
agreed_held = refl

ready_iff_claimed_example :
    (is_ready 3 agreed ≡ true) ↔ ((begin_execution 3 "t1" "a1" "c1" ready).1 ≡ ok "t1")
ready_iff_claimed_example = ready_iff_claimed 3 "t1" "a1" ready agreed agreed_held

saved_first : (save_checkpoint "a1" "c1" (7 ∷ []) over).1 ≡ ok tt
unfolding save_checkpoint lookup string_eq
saved_first = refl

abbrev resaved : List (ℕ × Call)
resaved = (5, save "a1" "c1" (8 ∷ [])) ∷ (6, start "t2" "a1" "c1") ∷ []

checkpoint-save_example :
    checkpoint_for_approval "a1" "c1" (run (save_checkpoint "a1" "c1" (7 ∷ []) over).0 resaved)
    ≡ ok (7 ∷ [])
checkpoint-save_example = checkpoint-save "a1" "c1" (7 ∷ []) over resaved saved_first

gate_opens : gate_checkpoint "a1" "c1" ready ≡ ok (1 ∷ [])
unfolding gate_checkpoint get checkpoint_for_approval lookup string_eq
gate_opens = refl
