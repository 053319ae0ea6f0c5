-- ===== src/Approval/Store.antt =====
-- internal/platform/approval/memory_store.go, and the gate over it in approval_gate.go. A method under
-- the mutex is a function to the new store and its result. The clock is read once in a call, and the
-- token that `uuid.NewString` makes is an argument. A record leaves the store as a copy.
pub mod Lifecycle
pub mod Fencing
pub mod Exclusive
pub mod Attempts
pub mod Listing
pub mod Checkpoints
pub mod History
pub mod Examples
use ecommerce_ops_agent.Base.{
  ℕ, suc, ◌+◌, String, List, [], ◌∷◌, Bool, true, false, ◌&&◌, ◌||◌, not, Option, none, some,
  Result, ok, err, if◌then◌else◌, ◌==◌, string_eq, nat_eq, ltb, leb, length, take, keep,
}
use ecommerce_ops_agent.Base.Dict.{Dict, lookup, insert, values}
use ecommerce_ops_agent.Base.Int.{ℤ, pos, negsuc}
use ecommerce_ops_agent.Base.Sort.{sort, by}
use ecommerce_ops_agent.Approval.Record.{
  Approval, Error, not_found, already_resolved, execution_unavailable, ids_required,
  checkpoint_exists, no_checkpoint, not_approved, pending, approved, not_started, executing,
  completed, failed, lease, max_attempts,
}

pub record Checkpoint : Type 0 where
  pub conversation_id : String
  pub state : List ℕ

pub record Store : Type 0 where
  pub approvals : Dict String Approval
  pub checkpoints : Dict String Checkpoint

pub new_memory_store : Store
new_memory_store = record { approvals = []; checkpoints = [] }

pub with_defaults : ℕ → Approval → Approval
with_defaults now a = record a {
  status = if a.status == "" then pending else a.status;
  created_at = if a.created_at == 0 then now else a.created_at;
  execution_status = if a.execution_status == "" then not_started else a.execution_status;
}

pub create_pending : ℕ → Approval → Store → Store
unfolding with_defaults
create_pending now a s =
    let cp = with_defaults now a in record s { approvals = insert cp.id cp s.approvals }

pub get : String → Store → Result Error Approval
get id s = elim (lookup id s.approvals) [ none ↦ err not_found | some a ↦ ok a ]

abbrev pub created : Approval → ℕ
created a = a.created_at

abbrev pub is_pending_in : String → Approval → Bool
is_pending_in workspace a = a.status == pending && (workspace == "" || a.workspace_id == workspace)

pub list_pending : String → Store → List Approval
list_pending workspace s = sort (by created) (keep (is_pending_in workspace) (values s.approvals))

abbrev pub is_of : String → Approval → Bool
is_of conversation a = a.conversation_id == conversation

pub list_by_conversation : String → Store → List Approval
list_by_conversation conversation s =
    sort (by created) (keep (is_of conversation) (values s.approvals))

-- A change of the record under a key; `found` is what the map holds there.
pub write : String → Approval → Store → Store × Result Error Approval
write id a s = (record s { approvals = insert id a s.approvals }, ok a)

pub settled : String → Approval → Bool
settled workspace a =
    not (a.status == pending) || (not (workspace == "") && not (a.workspace_id == workspace))

pub resolve :
    ℕ → String → String → String → String → Approval → Store → Store × Result Error Approval
unfolding write settled
resolve now id workspace status approver a s =
    if settled workspace a
    then (s, err already_resolved)
    else write id (record a { status = status; approver_id = approver; resolved_at = some now }) s

pub resolve_pending : ℕ → String → String → String → String → Store → Store × Result Error Approval
unfolding resolve
resolve_pending now id workspace status approver s = elim (lookup id s.approvals) [
  | none ↦ (s, err not_found)
  | some a ↦ resolve now id workspace status approver a s
]

-- A lease that lies before now.
abbrev pub lapsed : ℕ → Option ℕ → Bool
lapsed now none = false
lapsed now (some until) = ltb until now

abbrev pub reclaimable : ℕ → Approval → Bool
reclaimable now a =
    a.execution_status == not_started
    || (a.execution_status == failed
        || (a.execution_status == executing && lapsed now a.execution_lease_until))

pub claimed : ℕ → String → Approval → Approval
claimed now token a = record a {
  execution_status = executing;
  execution_started_at = some now;
  execution_completed_at = none;
  execution_error = "";
  execution_attempts = a.execution_attempts + 1;
  execution_token = token;
  execution_lease_until = some (now + lease);
}

pub refused : ℕ → String → Approval → Bool
refused now conversation a =
    not (reclaimable now a)
    || (not (a.conversation_id == conversation)
        || (not (a.status == approved) || leb max_attempts a.execution_attempts))

pub claim : ℕ → String → String → String → Approval → Store → Store × Result Error String
unfolding claimed refused
claim now token id conversation a s =
    if refused now conversation a
    then (s, err execution_unavailable)
    else (record s { approvals = insert id (claimed now token a) s.approvals }, ok token)

pub begin_execution : ℕ → String → String → String → Store → Store × Result Error String
unfolding claim
begin_execution now token id conversation s = elim (lookup id s.approvals) [
  | none ↦ (s, err execution_unavailable)
  | some a ↦ claim now token id conversation a s
]

-- The guard that `RenewExecution`, `CompleteExecution` and `FailExecution` share, over the change
-- that each makes.
pub held_by : String → Approval → Bool
held_by token a = a.execution_status == executing && a.execution_token == token

pub as_holder : String → String → (Approval → Approval) → Store → Store × Result Error (Unit {0})
unfolding held_by
as_holder id token change s = elim (lookup id s.approvals) [
  | none ↦ (s, err execution_unavailable)
  | some a ↦
      if held_by token a
      then (record s { approvals = insert id (change a) s.approvals }, ok tt)
      else (s, err execution_unavailable)
]

abbrev pub renewed : ℕ → Approval → Approval
renewed now a = record a { execution_lease_until = some (now + lease) }

abbrev pub finished : ℕ → Approval → Approval
finished now a = record a {
  execution_status = completed;
  execution_completed_at = some now;
  execution_lease_until = none;
  execution_token = "";
}

abbrev pub given_up : ℕ → String → Approval → Approval
given_up now message a = record a {
  execution_status = failed;
  execution_completed_at = some now;
  execution_error = message;
  execution_lease_until = none;
  execution_token = "";
}

pub renew_execution : ℕ → String → String → Store → Store × Result Error (Unit {0})
unfolding as_holder
renew_execution now id token = as_holder id token (renewed now)

pub complete_execution : ℕ → String → String → Store → Store × Result Error (Unit {0})
unfolding as_holder
complete_execution now id token = as_holder id token (finished now)

pub fail_execution : ℕ → String → String → String → Store → Store × Result Error (Unit {0})
unfolding as_holder
fail_execution now id token message = as_holder id token (given_up now message)

abbrev pub is_ready : ℕ → Approval → Bool
is_ready now a =
    a.status == approved && (not (leb max_attempts a.execution_attempts) && reclaimable now a)

abbrev pub at_most : ℤ → List Approval → List Approval
at_most (pos ℕ.zero) out = out
at_most (pos (ℕ.suc n)) out = take (suc n) out
at_most (negsuc n) out = out

pub list_ready_resumes : ℕ → ℤ → Store → List Approval
list_ready_resumes now limit s =
    at_most limit (sort (by created) (keep (is_ready now) (values s.approvals)))

pub save_checkpoint : String → String → List ℕ → Store → Store × Result Error (Unit {0})
save_checkpoint id conversation state s =
    if id == "" || conversation == ""
    then (s, err ids_required)
    else elim (lookup id s.checkpoints) [
      | some taken ↦ (s, err checkpoint_exists)
      | none ↦ (
        record s {
          checkpoints =
              insert id (record { conversation_id = conversation; state = state }) s.checkpoints;
        },
        ok tt,
      )
    ]

pub checkpoint_for_approval : String → String → Store → Result Error (List ℕ)
checkpoint_for_approval id conversation s = elim (lookup id s.checkpoints) [
  | none ↦ err no_checkpoint
  | some c ↦ if c.conversation_id == conversation then ok c.state else err no_checkpoint
]

-- `engineApprovalGate`: a new approval has five fields, and a checkpoint is handed out only for an
-- approved one.
pub gate_create_pending : ℕ → String → String → String → String → String → Store → Store
unfolding create_pending
gate_create_pending now id workspace conversation action payload = create_pending now (record {
  id = id;
  workspace_id = workspace;
  conversation_id = conversation;
  action = action;
  payload = payload;
  status = "";
  approver_id = "";
  created_at = 0;
  resolved_at = none;
  execution_status = "";
  execution_started_at = none;
  execution_completed_at = none;
  execution_error = "";
  execution_lease_until = none;
  execution_attempts = 0;
  execution_token = "";
})

pub gate_checkpoint : String → String → Store → Result Error (List ℕ)
unfolding get checkpoint_for_approval
gate_checkpoint id conversation s = elim (get id s) [
  | err e ↦ err e
  | ok a ↦
      if a.status == approved
      then checkpoint_for_approval id conversation s
      else err (not_approved a.status)
]
