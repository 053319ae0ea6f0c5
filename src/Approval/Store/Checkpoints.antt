-- ===== src/Approval/Store/Checkpoints.antt =====
-- Checkpoints are written once, and the gate hands one out only after the approval.
use ecommerce_ops_agent.Base.{ℕ, ◌≡◌, String, List, [], ◌∷◌, some, ok, arith, string_eq}
use ecommerce_ops_agent.Base.Dict.{lookup, lookup-insert, lookup-insert_self}
use ecommerce_ops_agent.Approval.Record.{Approval, approved}
use ecommerce_ops_agent.Approval.Store.{
  Store, Checkpoint, gate_create_pending, create_pending, resolve_pending, resolve, write,
  begin_execution, claim, renew_execution, complete_execution, fail_execution, as_holder,
  save_checkpoint, checkpoint_for_approval, gate_checkpoint, get,
}
use ecommerce_ops_agent.Approval.Store.History.{
  Call, create, decide, start, renew, complete, fail, save, step, run,
}

-- Every call keeps the checkpoints that are there.
step-checkpoint :
    (id : String) (c : Checkpoint) (s : Store) (call : ℕ × Call)
    → lookup id s.checkpoints ≡ some c
    → lookup id (step s call).checkpoints ≡ some c
unfolding step gate_create_pending create_pending resolve_pending resolve write begin_execution
    claim renew_execution complete_execution fail_execution as_holder save_checkpoint
step-checkpoint id c s (now, create k w cv a p) h = h
step-checkpoint id c s (now, decide k w st who) h = ground arith
step-checkpoint id c s (now, start token k cv) h = ground arith
step-checkpoint id c s (now, renew k token) h = ground arith
step-checkpoint id c s (now, complete k token) h = ground arith
step-checkpoint id c s (now, fail k token m) h = ground arith
step-checkpoint id c s (now, save k cv st) h =
    ground (arith, lookup-insert id k (record { conversation_id = cv; state = st }) s.checkpoints)

run-checkpoint :
    (id : String) (c : Checkpoint) (s : Store) (cs : List (ℕ × Call))
    → lookup id s.checkpoints ≡ some c
    → lookup id (run s cs).checkpoints ≡ some c
unfolding run
run-checkpoint id c s [] h = h
run-checkpoint id c s (call ∷ cs) h =
    run-checkpoint id c (step s call) cs (step-checkpoint id c s call h)

saved :
    (id conversation : String) (state : List ℕ) (s : Store)
    → (save_checkpoint id conversation state s).1 ≡ ok tt
    → lookup id (save_checkpoint id conversation state s).0.checkpoints
      ≡ some (record { conversation_id = conversation; state = state })
unfolding save_checkpoint
saved id conversation state s done = ground (
  arith,
  lookup-insert_self id (record { conversation_id = conversation; state = state }) s.checkpoints,
)

-- A checkpoint that was saved for an approval is read back unchanged after any history of calls,
-- further saves under the same approval included.
pub checkpoint-save :
    (id conversation : String) (state : List ℕ) (s : Store) (cs : List (ℕ × Call))
    → (save_checkpoint id conversation state s).1 ≡ ok tt
    → checkpoint_for_approval id conversation (run (save_checkpoint id conversation state s).0 cs)
      ≡ ok state
unfolding checkpoint_for_approval
checkpoint-save id conversation state s cs done = ground (
  arith,
  run-checkpoint id (record { conversation_id = conversation; state = state })
      (save_checkpoint id conversation state s).0 cs (saved id conversation state s done),
)

-- The gate gives a checkpoint to a run only if the approval is there and approved, and then it is
-- the state saved for that approval and that conversation.
pub gate_checkpoint-approved :
    (id conversation : String) (s : Store) (state : List ℕ)
    → gate_checkpoint id conversation s ≡ ok state
    → (a : Approval) × (lookup id s.approvals ≡ some a)
      × (a.status ≡ approved)
      × (lookup id s.checkpoints ≡ some (record { conversation_id = conversation; state = state }))
unfolding gate_checkpoint get checkpoint_for_approval
gate_checkpoint-approved id conversation s state h = ground arith
