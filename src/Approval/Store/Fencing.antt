-- ===== src/Approval/Store/Fencing.antt =====
-- Leases and tokens: who may act on an execution, in any interleaving of calls.
use ecommerce_ops_agent.Base.{
  ℕ, ◌≡◌, refl, ◌≢◌, ap, String, some, true, err, arith, string_eq, inl, inr, Bool-cases,
  Option-cases, ◌⊎◌,
}
use ecommerce_ops_agent.Base.Dict.{lookup, insert, lookup-insert_ne}
use ecommerce_ops_agent.Approval.Record.{
  Approval, execution_unavailable, approved, executing, pending_not_approved,
}
use ecommerce_ops_agent.Approval.Store.{
  Store, gate_create_pending, create_pending, with_defaults, resolve_pending, resolve, settled,
  write, begin_execution, claim, claimed, refused, renew_execution, complete_execution,
  fail_execution, as_holder, held_by, renewed, finished, given_up,
}
use ecommerce_ops_agent.Approval.Store.Lifecycle.{begin_cases}
use ecommerce_ops_agent.Approval.Store.History.{
  Call, create, decide, start, renew, complete, fail, save, step, save-approvals,
}

-- A record that a call which is not about it leaves alone.
abbrev pub Kept : String → Store → Store → Type 0
Kept id s t = lookup id t.approvals ≡ lookup id s.approvals

insert_other :
    (id k : String) (a : Approval) (s : Store)
    → id ≢ k
    → Kept id s (record s { approvals = insert k a s.approvals })
insert_other id k a s h = lookup-insert_ne id k a s.approvals h

pub as_holder_other :
    (id k token : String) (change : Approval → Approval) (s : Store)
    → id ≢ k
    → Kept id s (as_holder k token change s).0
unfolding as_holder
as_holder_other id k token change s h = elim (Option-cases (lookup k s.approvals)) [
  | inl e ↦ rw (e, as_holder)
  | inr (a, e) ↦ elim (Bool-cases (held_by token a)) [
    | inl holder ↦ rw (e, holder, as_holder) (insert_other id k (change a) s h)
    | inr other ↦ rw (e, other, as_holder)
  ]
]

-- Who acts on a record that nobody may act on without its token: nothing happens.
pub as_holder_stranger :
    (id token : String) (change : Approval → Approval) (s : Store) (a : Approval)
    → lookup id s.approvals ≡ some a
    → (a.execution_status ≢ executing) ⊎ (a.execution_token ≢ token)
    → as_holder id token change s ≡ (s, err execution_unavailable)
unfolding as_holder held_by
as_holder_stranger id token change s a found h = ground arith

pub resolve_settled :
    (now : ℕ) (id workspace status approver : String) (s : Store) (a : Approval)
    → lookup id s.approvals ≡ some a
    → a.status ≡ approved
    → (resolve_pending now id workspace status approver s).0 ≡ s
unfolding resolve_pending resolve settled
resolve_settled now id workspace status approver s a found done =
    ground (arith, pending_not_approved)

resolve_other :
    (now : ℕ) (id k workspace status approver : String) (s : Store)
    → id ≢ k
    → Kept id s (resolve_pending now k workspace status approver s).0
unfolding resolve_pending resolve write
resolve_other now id k workspace status approver s h = elim (Option-cases (lookup k s.approvals)) [
  | inl e ↦ rw (e, resolve_pending)
  | inr (a, e) ↦ elim (Bool-cases (settled workspace a)) [
    | inl no_write ↦ rw (e, no_write, resolve_pending, resolve)
    | inr may ↦ rw (e, may, resolve_pending, resolve) (insert_other id k _ s h)
  ]
]

pub begin_other :
    (now : ℕ) (token id k conversation : String) (s : Store)
    → id ≢ k
    → Kept id s (begin_execution now token k conversation s).0
begin_other now token id k conversation s h =
    begin_cases (λ r. Kept id s r.0) now token k conversation s refl
      (λ a e c. insert_other id k (claimed now token a) s h)

pub begin_refused :
    (now : ℕ) (token id conversation : String) (s : Store) (a : Approval)
    → lookup id s.approvals ≡ some a
    → refused now conversation a ≡ true
    → begin_execution now token id conversation s ≡ (s, err execution_unavailable)
unfolding begin_execution claim
begin_refused now token id conversation s a found h = ground arith

-- A call about another approval, or one that can change this one in no state.
abbrev pub IsAbout : String → Call → Type 0
IsAbout id (create k workspace conversation action payload) = id ≡ k
IsAbout id (decide k workspace status approver) = id ≡ k
IsAbout id (start token k conversation) = id ≡ k
IsAbout id (renew k token) = id ≡ k
IsAbout id (complete k token) = id ≡ k
IsAbout id (fail k token message) = id ≡ k
IsAbout id (save k conversation state) = ⊥

pub step_other :
    (id : String) (s : Store) (now : ℕ) (c : Call) → ¬ IsAbout id c → Kept id s (step s (now, c))
unfolding step gate_create_pending create_pending with_defaults renew_execution complete_execution
    fail_execution
step_other id s now (create k w c a p) h = insert_other id k _ s h
step_other id s now (decide k w st ap) h = resolve_other now id k w st ap s h
step_other id s now (start token k c) h = begin_other now token id k c s h
step_other id s now (renew k token) h = as_holder_other id k token (renewed now) s h
step_other id s now (complete k token) h = as_holder_other id k token (finished now) s h
step_other id s now (fail k token m) h = as_holder_other id k token (given_up now m) s h
step_other id s now (save k c st) h = rw (save-approvals k c st s)
