-- ===== src/Approval/Store/Attempts.antt =====
-- How often an approval can be claimed, and that completion is final.
use ecommerce_ops_agent.Base.{
  ℕ, ◌+◌, ◌≤◌, ◌≡◌, refl, ◌≢◌, sym, ◌∙◌, ap, subst, String, List, [], ◌∷◌, All, Option, none, some,
  true, Result, ok, err, arith, string_eq, inl, inr, if◌then◌else◌, ◌==◌, Option-cases, Bool-cases,
}
use ecommerce_ops_agent.Base.Dict.{lookup, lookup-insert_self}
use ecommerce_ops_agent.Approval.Record.{
  Approval, Error, execution_unavailable, approved, completed, max_attempts,
  executing_not_completed, completed_not_started, completed_not_failed,
}
use ecommerce_ops_agent.Approval.Store.{
  Store, resolve_pending, resolve, write, settled, begin_execution, claimed, refused,
  renew_execution, complete_execution, fail_execution, renewed, finished, given_up, as_holder,
  held_by,
}
use ecommerce_ops_agent.Approval.Store.Lifecycle.{begin_cases, AllSound}
use ecommerce_ops_agent.Approval.Store.History.{
  Call, create, decide, start, renew, complete, fail, save, step, run, save-approvals, HasToken,
  run-AllSound,
}
use ecommerce_ops_agent.Approval.Store.Fencing.{
  Kept, begin_other, as_holder_other, step_other, as_holder_stranger, resolve_settled,
  begin_refused,
}

-- The attempts that the record under a key has on it.
abbrev pub attempts_of : Option Approval → ℕ
attempts_of none = 0
attempts_of (some a) = a.execution_attempts

abbrev pub attempts : String → Store → ℕ
attempts id s = attempts_of (lookup id s.approvals)

abbrev pub one_if_ok {ℓ} : {A : Type ℓ} → Result Error A → ℕ
one_if_ok (ok _) = 1
one_if_ok (err _) = 0

-- Whether a call claims an approval, as a number.
claims_by : String → Store → ℕ × Call → ℕ
claims_by id s (now, start token k conversation) =
    if id == k then one_if_ok (begin_execution now token k conversation s).1 else 0
claims_by id s _ = 0

-- The successful claims of an approval in a history.
pub claims : String → Store → List (ℕ × Call) → ℕ
unfolding claims_by
claims id s [] = 0
claims id s (c ∷ cs) = claims_by id s c + claims id (step s c) cs

abbrev pub CreatesNot : String → ℕ × Call → Type 0
CreatesNot id (now, create k workspace conversation action payload) = id ≢ k
CreatesNot id _ = Unit {0}

same_attempts : (id : String) (s t : Store) → Kept id s t → attempts id t ≡ attempts id s
same_attempts id s t e = ap attempts_of e

attempts-as_holder :
    (id token : String) (change : Approval → Approval) (s : Store)
    → ((a : Approval) → (change a).execution_attempts ≡ a.execution_attempts)
    → attempts id (as_holder id token change s).0 ≡ attempts id s
unfolding as_holder
attempts-as_holder id token change s keeps = elim (Option-cases (lookup id s.approvals)) [
  | inl e ↦ rw (e, as_holder) (ap attempts_of e)
  | inr (a, e) ↦ elim (Bool-cases (held_by token a)) [
    | inl holder ↦
        rw (e, holder, as_holder)
          (ap attempts_of (lookup-insert_self id (change a) s.approvals) ∙ keeps a)
    | inr other ↦ rw (e, other, as_holder) (ap attempts_of e)
  ]
]

resolve_attempts :
    (now : ℕ) (id workspace status approver : String) (s : Store)
    → attempts id (resolve_pending now id workspace status approver s).0 ≡ attempts id s
unfolding resolve_pending resolve write
resolve_attempts now id workspace status approver s = elim (Option-cases (lookup id s.approvals)) [
  | inl e ↦ rw (e, resolve_pending) (ap attempts_of e)
  | inr (a, e) ↦ elim (Bool-cases (settled workspace a)) [
    | inl no_write ↦ rw (e, no_write, resolve_pending, resolve) (ap attempts_of e)
    | inr may ↦
        rw (e, may, resolve_pending, resolve) (ap attempts_of (lookup-insert_self id _ s.approvals))
  ]
]

begin_attempts :
    (now : ℕ) (token id conversation : String) (s : Store)
    → attempts id (begin_execution now token id conversation s).0
      ≡ one_if_ok (begin_execution now token id conversation s).1 + attempts id s
unfolding claimed
begin_attempts now token id conversation s =
    begin_cases (λ r. attempts id r.0 ≡ one_if_ok r.1 + attempts id s) now token id conversation s
      (omega arith)
      λ a e c.
        rw e
          (ap attempts_of (lookup-insert_self id (claimed now token a) s.approvals) ∙ omega arith)

holder_attempts :
    (id k token : String) (change : Approval → Approval) (s : Store)
    → ((a : Approval) → (change a).execution_attempts ≡ a.execution_attempts)
    → attempts id (as_holder k token change s).0 ≡ 0 + attempts id s
holder_attempts id k token change s keeps = elim (string_eq.dec id k) [
  | no other ↦ omega (arith, same_attempts id s _ (as_holder_other id k token change s other))
  | yes same ↦ omega (
    arith,
    subst (λ j. attempts j (as_holder k token change s).0 ≡ attempts j s) (sym same)
        (attempts-as_holder k token change s keeps),
  )
]

start-attempts :
    (id now_id : String) (now : ℕ) (token conversation : String) (s : Store)
    → attempts id (begin_execution now token now_id conversation s).0
      ≡ claims_by id s (now, start token now_id conversation) + attempts id s
unfolding claims_by
start-attempts id k now token conversation s = elim (string_eq.dec id k) [
  | no other ↦ ground (
    arith,
    same_attempts id s (begin_execution now token k conversation s).0
        (begin_other now token id k conversation s other),
  )
  | yes same ↦ ground (
    arith,
    subst
        (λ j.
          attempts j (begin_execution now token k conversation s).0
          ≡ one_if_ok (begin_execution now token k conversation s).1 + attempts j s)
        (sym same) (begin_attempts now token k conversation s),
  )
]

attempts-step :
    (id : String) (s : Store) (c : ℕ × Call)
    → CreatesNot id c
    → attempts id (step s c) ≡ claims_by id s c + attempts id s
unfolding step claims_by renew_execution complete_execution fail_execution
attempts-step id s (now, create k w c a p) h =
    omega (arith, same_attempts id s _ (step_other id s now (create k w c a p) h))
attempts-step id s (now, decide k w st who) h = elim (string_eq.dec id k) [
  | no other ↦ omega (arith, same_attempts id s _ (step_other id s now (decide k w st who) other))
  | yes same ↦ omega (
    arith,
    subst (λ j. attempts j (resolve_pending now k w st who s).0 ≡ attempts j s) (sym same)
        (resolve_attempts now k w st who s),
  )
]
attempts-step id s (now, start token k c) h = start-attempts id k now token c s
attempts-step id s (now, renew k token) h = holder_attempts id k token (renewed now) s (λ a. refl)
attempts-step id s (now, complete k token) h =
    holder_attempts id k token (finished now) s (λ a. refl)
attempts-step id s (now, fail k token m) h =
    holder_attempts id k token (given_up now m) s (λ a. refl)
attempts-step id s (now, save k c st) h =
    omega (arith, ap (λ d. attempts_of (lookup id d)) (save-approvals k c st s))

attempts-run :
    (id : String) (s : Store) (cs : List (ℕ × Call))
    → All (CreatesNot id) cs
    → attempts id (run s cs) ≡ claims id s cs + attempts id s
unfolding run claims
attempts-run id s [] h = omega arith
attempts-run id s (c ∷ cs) h =
    omega (arith, attempts-run id (step s c) cs h.1, attempts-step id s c h.0)

sound_attempts : (id : String) (s : Store) → AllSound s.approvals → attempts id s ≤ max_attempts
sound_attempts id s h = elim (Option-cases (lookup id s.approvals)) [
  | inl e ↦ rw e (omega arith)
  | inr (a, e) ↦ rw e (h id a e).capped
]

-- From a store in which every approval is sound, in any history that does not create the approval
-- anew and whose tokens are not empty: the successful claims of the approval and the attempts that
-- it starts with are together at most five.
pub claims_bounded :
    (id : String) (s : Store) (cs : List (ℕ × Call))
    → AllSound s.approvals
    → All HasToken cs
    → All (CreatesNot id) cs
    → claims id s cs + attempts id s ≤ max_attempts
claims_bounded id s cs h tokens others =
    omega (
      arith,
      attempts-run id s cs others,
      sound_attempts id (run s cs) (run-AllSound s cs tokens h),
    )

-- The execution of an approval that was decided for is completed.
abbrev pub IsCompleted : String → Store → Type 0
IsCompleted id s =
    (a : Approval) × (lookup id s.approvals ≡ some a)
    × (a.execution_status ≡ completed)
    × (a.status ≡ approved)

completed-refused :
    (now : ℕ) (conversation : String) (a : Approval)
    → a.execution_status ≡ completed
    → refused now conversation a ≡ true
unfolding refused
completed-refused now conversation a done =
    ground (arith, executing_not_completed, completed_not_started, completed_not_failed)

completed-Kept :
    (id k token : String) (change : Approval → Approval) (s : Store)
    → IsCompleted id s
    → Kept id s (as_holder k token change s).0
completed-Kept id k token change s (a, found, done, agreed) = elim (string_eq.dec id k) [
  | no other ↦ as_holder_other id k token change s other
  | yes same ↦
      ap (λ r. lookup id r.0.approvals)
        (as_holder_stranger k token change s a
          (subst (λ j. lookup j s.approvals ≡ some a) same found)
          (inl (λ e. executing_not_completed (sym e ∙ done))))
]

completed_stays :
    (id : String) (s : Store) (c : ℕ × Call)
    → CreatesNot id c
    → IsCompleted id s
    → Kept id s (step s c)
unfolding step renew_execution complete_execution fail_execution
completed_stays id s (now, create k w c a p) h d = step_other id s now (create k w c a p) h
completed_stays id s (now, decide k w st who) h (a, found, done, agreed) =
    elim (string_eq.dec id k) [
      | no other ↦ step_other id s now (decide k w st who) other
      | yes same ↦
          ap (λ r. lookup id r.approvals)
            (resolve_settled now k w st who s a
              (subst (λ j. lookup j s.approvals ≡ some a) same found) agreed)
    ]
completed_stays id s (now, start token k c) h (a, found, done, agreed) = elim (string_eq.dec id k) [
  | no other ↦ step_other id s now (start token k c) other
  | yes same ↦
      ap (λ r. lookup id r.0.approvals)
        (begin_refused now token k c s a (subst (λ j. lookup j s.approvals ≡ some a) same found)
          (completed-refused now c a done))
]
completed_stays id s (now, renew k token) h d = completed-Kept id k token (renewed now) s d
completed_stays id s (now, complete k token) h d = completed-Kept id k token (finished now) s d
completed_stays id s (now, fail k token m) h d = completed-Kept id k token (given_up now m) s d
completed_stays id s (now, save k c st) h d = rw (save-approvals k c st s)

run-IsCompleted :
    (id : String) (s : Store) (cs : List (ℕ × Call))
    → All (CreatesNot id) cs
    → IsCompleted id s
    → IsCompleted id (run s cs)
unfolding run
run-IsCompleted id s [] h d = d
run-IsCompleted id s (c ∷ cs) h d =
    run-IsCompleted id (step s c) cs h.1 (d.0, completed_stays id s c h.0 d ∙ d.1, d.2, d.3)

-- An approved call whose execution is completed is never claimed again, whatever calls follow, as
-- long as none of them creates the approval anew.
pub completed_final :
    (id : String) (s : Store) (cs : List (ℕ × Call)) (now : ℕ) (token conversation : String)
    → All (CreatesNot id) cs
    → IsCompleted id s
    → begin_execution now token id conversation (run s cs) ≡ (run s cs, err execution_unavailable)
completed_final id s cs now token conversation h d =
    let (a, found, done, agreed) = run-IsCompleted id s cs h d in
    begin_refused now token id conversation (run s cs) a found
      (completed-refused now conversation a done)
