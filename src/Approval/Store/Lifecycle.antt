-- ===== src/Approval/Store/Lifecycle.antt =====
-- What holds of every approval between two calls.
use ecommerce_ops_agent.Base.{
  ℕ, subst, ◌≤◌, ◌<◌, ◌≡◌, ◌≢◌, String, none, some, true, Result, ok, err, arith, string_eq,
  Option-cases, inl, inr, Bool-cases,
}
use ecommerce_ops_agent.Base.Dict.{Dict, lookup, insert, lookup-insert}
use ecommerce_ops_agent.Approval.Record.{
  Error, execution_unavailable, Approval, pending, approved, not_started, executing, max_attempts,
  pending_not_approved, executing_not_started, executing_not_failed, executing_not_completed,
  completed_not_started, not_started_not_failed,
}
use ecommerce_ops_agent.Approval.Store.{
  Store, reclaimable, refused, settled, resolve_pending, resolve, write, begin_execution, claim,
  claimed, renew_execution, complete_execution, fail_execution, as_holder, held_by, renewed,
  finished, given_up, gate_create_pending, create_pending, with_defaults,
}

pub record IsSound (a : Approval) : Type 0 where
  pub capped : a.execution_attempts ≤ max_attempts
  pub permitted : a.execution_status ≢ not_started → a.status ≡ approved
  pub counted : a.execution_status ≢ not_started → 0 < a.execution_attempts
  pub untouched : a.execution_status ≡ not_started → a.execution_attempts ≡ 0
  pub held : a.execution_status ≡ executing → a.execution_token ≢ ""
  pub leased : a.execution_status ≡ executing → a.execution_lease_until ≢ none
  pub free : a.execution_status ≢ executing → a.execution_token ≡ ""
  pub unleased : a.execution_status ≢ executing → a.execution_lease_until ≡ none

abbrev pub AllSound : Dict String Approval → Type 0
AllSound d = (k : String) (a : Approval) → lookup k d ≡ some a → IsSound a

insert-AllSound :
    (k : String) (a : Approval) (d : Dict String Approval)
    → AllSound d
    → IsSound a
    → AllSound (insert k a d)
insert-AllSound k a d h new j b found = elim (string_eq.dec j k) [
  | yes same ↦ subst IsSound (ground (arith, lookup-insert j k a d)) new
  | no other ↦ h j b (ground (arith, lookup-insert j k a d))
]

claimed-IsSound :
    (now : ℕ) (token : String) (a : Approval)
    → token ≢ ""
    → a.status ≡ approved
    → a.execution_attempts < max_attempts
    → IsSound (claimed now token a)
unfolding claimed
claimed-IsSound now token a t s h = ground (arith, executing_not_started)

finished-IsSound :
    (now : ℕ) (a : Approval) → a.execution_status ≡ executing → IsSound a → IsSound (finished now a)
finished-IsSound now a e h =
    ground (arith, executing_not_completed, executing_not_started, completed_not_started)

given_up-IsSound :
    (now : ℕ) (message : String) (a : Approval)
    → a.execution_status ≡ executing
    → IsSound a
    → IsSound (given_up now message a)
given_up-IsSound now message a e h =
    ground (arith, executing_not_failed, executing_not_started, not_started_not_failed)

renewed-IsSound :
    (now : ℕ) (a : Approval) → a.execution_status ≡ executing → IsSound a → IsSound (renewed now a)
renewed-IsSound now a e h = ground (arith, executing_not_started)

resolved-IsSound :
    (now : ℕ) (status approver : String) (a : Approval)
    → a.status ≡ pending
    → IsSound a
    → IsSound (record a { status = status; approver_id = approver; resolved_at = some now })
resolved-IsSound now status approver a p h = ground (arith, pending_not_approved)

as_holder-AllSound :
    (id token : String) (change : Approval → Approval) (s : Store)
    → ((a : Approval) → a.execution_status ≡ executing → IsSound a → IsSound (change a))
    → AllSound s.approvals
    → AllSound (as_holder id token change s).0.approvals
unfolding as_holder held_by
as_holder-AllSound id token change s keeps h = elim (Option-cases (lookup id s.approvals)) [
  | inl e ↦ rw (e, as_holder) h
  | inr (a, e) ↦ elim (Bool-cases (held_by token a)) [
    | inr no_holder ↦ rw (e, no_holder, as_holder) h
    | inl holder ↦
        rw (e, holder, as_holder)
          (insert-AllSound id (change a) s.approvals h (keeps a (ground arith) (h id a e)))
  ]
]

pub renew-AllSound :
    (now : ℕ) (id token : String) (s : Store)
    → AllSound s.approvals
    → AllSound (renew_execution now id token s).0.approvals
unfolding renew_execution
renew-AllSound now id token s = as_holder-AllSound id token (renewed now) s (renewed-IsSound now)

pub complete-AllSound :
    (now : ℕ) (id token : String) (s : Store)
    → AllSound s.approvals
    → AllSound (complete_execution now id token s).0.approvals
unfolding complete_execution
complete-AllSound now id token s =
    as_holder-AllSound id token (finished now) s (finished-IsSound now)

pub fail-AllSound :
    (now : ℕ) (id token message : String) (s : Store)
    → AllSound s.approvals
    → AllSound (fail_execution now id token message s).0.approvals
unfolding fail_execution
fail-AllSound now id token message s =
    as_holder-AllSound id token (given_up now message) s (given_up-IsSound now message)

-- The one path of `BeginExecution` that writes.
pub record Claimable (now : ℕ) (conversation : String) (a : Approval) : Type 0 where
  pub idle : reclaimable now a ≡ true
  pub same : a.conversation_id ≡ conversation
  pub agreed : a.status ≡ approved
  pub left : a.execution_attempts < max_attempts

pub begin_cases {ℓ} :
    (P : Store × Result Error String → Type ℓ) (now : ℕ) (token id conversation : String)
    (s : Store)
    → P (s, err execution_unavailable)
    → ((a : Approval)
        → lookup id s.approvals ≡ some a
        → Claimable now conversation a
        → P (record s { approvals = insert id (claimed now token a) s.approvals }, ok token))
    → P (begin_execution now token id conversation s)
unfolding begin_execution claim
begin_cases P now token id conversation s same claims =
    elim (Option-cases (lookup id s.approvals)) [
      | inl e ↦ rw (e, begin_execution) same
      | inr (a, e) ↦ elim (Bool-cases (refused now conversation a)) [
        | inl no_claim ↦ rw (e, no_claim, begin_execution, claim) same
        | inr may ↦
            rw (e, may, begin_execution, claim)
              (claims a e (record {
                idle = ground arith;
                same = ground arith;
                agreed = ground arith;
                left = ground arith;
              }))
      ]
    ]

pub begin-AllSound :
    (now : ℕ) (token id conversation : String) (s : Store)
    → token ≢ ""
    → AllSound s.approvals
    → AllSound (begin_execution now token id conversation s).0.approvals
begin-AllSound now token id conversation s named h =
    begin_cases (λ r. AllSound r.0.approvals) now token id conversation s h
      λ a e c.
        insert-AllSound id (claimed now token a) s.approvals h
          (claimed-IsSound now token a named c.agreed c.left)

pub resolve-AllSound :
    (now : ℕ) (id workspace status approver : String) (s : Store)
    → AllSound s.approvals
    → AllSound (resolve_pending now id workspace status approver s).0.approvals
unfolding resolve_pending resolve write
resolve-AllSound now id workspace status approver s h =
    elim (Option-cases (lookup id s.approvals)) [
      | inl e ↦ rw (e, resolve_pending) h
      | inr (a, e) ↦ elim (Bool-cases (settled workspace a)) [
        | inl no_write ↦ rw (e, no_write, resolve_pending, resolve) h
        | inr may ↦
            rw (e, may, resolve_pending, resolve)
              (insert-AllSound id _ s.approvals h
                (resolved-IsSound now status approver a (ground arith) (h id a e)))
      ]
    ]

pub create-AllSound :
    (now : ℕ) (id workspace conversation action payload : String) (s : Store)
    → AllSound s.approvals
    → AllSound (gate_create_pending now id workspace conversation action payload s).approvals
unfolding gate_create_pending create_pending with_defaults
create-AllSound now id workspace conversation action payload s h =
    insert-AllSound id _ s.approvals h (ground (arith, executing_not_started))
