-- ===== src/Approval/Store/Exclusive.antt =====
-- While a lease runs, nobody but the holder of its token touches the execution; and a completed
-- execution stays completed.
use ecommerce_ops_agent.Base.{
  ℕ, ◌+◌, ◌≤◌, ◌≡◌, refl, ◌≢◌, sym, ◌∙◌, ap, subst, String, List, [], ◌∷◌, All, some, true, ok, err,
  arith, string_eq, ◌⊎◌, inr,
}
use ecommerce_ops_agent.Base.Dict.{lookup, insert, lookup-insert_self}
use ecommerce_ops_agent.Approval.Record.{
  Approval, execution_unavailable, approved, executing, lease, executing_not_started,
  executing_not_failed,
}
use ecommerce_ops_agent.Approval.Store.{
  Store, begin_execution, claimed, refused, renew_execution, complete_execution, fail_execution,
  renewed, finished, given_up, as_holder, held_by,
}
use ecommerce_ops_agent.Approval.Store.Lifecycle.{begin_cases}
use ecommerce_ops_agent.Approval.Store.History.{
  Call, create, decide, start, renew, complete, fail, save, step, run, save-approvals,
}
use ecommerce_ops_agent.Approval.Store.Fencing.{
  Kept, step_other, as_holder_stranger, resolve_settled, begin_refused,
}

-- The execution of `id` is held under `token` by a lease that runs to `until` at least.
pub record Holds (id token : String) (until : ℕ) (s : Store) : Type 0 where
  pub record_of : Approval
  pub found : lookup id s.approvals ≡ some record_of
  pub runs : record_of.execution_status ≡ executing
  pub ours : record_of.execution_token ≡ token
  pub agreed : record_of.status ≡ approved
  pub end : ℕ
  pub leased : record_of.execution_lease_until ≡ some end
  pub lasts : until ≤ end

-- A call that does not create the approval anew, and does not present the token.
abbrev pub IsForeign : String → String → Call → Type 0
IsForeign id token (create k workspace conversation action payload) = id ≢ k
IsForeign id token (renew k presented) = (id ≢ k) ⊎ (token ≢ presented)
IsForeign id token (complete k presented) = (id ≢ k) ⊎ (token ≢ presented)
IsForeign id token (fail k presented message) = (id ≢ k) ⊎ (token ≢ presented)
IsForeign id token _ = Unit {0}

Holds-Kept :
    (id token : String) (until : ℕ) (s t : Store)
    → Kept id s t
    → Holds id token until s
    → Holds id token until t
Holds-Kept id token until s t kept h = record {
  record_of = h.record_of;
  found = kept ∙ h.found;
  runs = h.runs;
  ours = h.ours;
  agreed = h.agreed;
  end = h.end;
  leased = h.leased;
  lasts = h.lasts;
}

refused_while_leased :
    (now end : ℕ) (conversation : String) (a : Approval)
    → a.execution_status ≡ executing
    → a.execution_lease_until ≡ some end
    → now ≤ end
    → refused now conversation a ≡ true
unfolding refused
refused_while_leased now end conversation a runs leased before =
    ground (arith, executing_not_started, executing_not_failed)

found_at :
    (id k token : String) (until : ℕ) (s : Store) (h : Holds id token until s)
    → id ≡ k
    → lookup k s.approvals ≡ some h.record_of
found_at id k token until s h same =
    subst (λ j. lookup j s.approvals ≡ some h.record_of) same h.found

stranger-Kept :
    (id k token presented : String) (until : ℕ) (change : Approval → Approval) (s : Store)
    → Holds id token until s
    → token ≢ presented
    → id ≡ k
    → Kept id s (as_holder k presented change s).0
stranger-Kept id k token presented until change s h other same =
    ap (λ r. lookup id r.0.approvals)
      (as_holder_stranger k presented change s h.record_of (found_at id k token until s h same)
        (inr (λ e. other (sym h.ours ∙ e))))

step_foreign :
    (id token : String) (until now : ℕ) (s : Store) (c : Call)
    → now ≤ until
    → IsForeign id token c
    → Holds id token until s
    → Kept id s (step s (now, c))
unfolding step renew_execution complete_execution fail_execution
step_foreign id token until now s (create k w c a p) t f h =
    step_other id s now (create k w c a p) f
step_foreign id token until now s (decide k w st who) t f h = elim (string_eq.dec id k) [
  | no other ↦ step_other id s now (decide k w st who) other
  | yes same ↦
      ap (λ r. lookup id r.approvals)
        (resolve_settled now k w st who s h.record_of (found_at id k token until s h same) h.agreed)
]
step_foreign id token until now s (start presented k c) t f h = elim (string_eq.dec id k) [
  | no other ↦ step_other id s now (start presented k c) other
  | yes same ↦
      ap (λ r. lookup id r.0.approvals)
        (begin_refused now presented k c s h.record_of (found_at id k token until s h same)
          (refused_while_leased now h.end c h.record_of h.runs h.leased (omega (arith, h.lasts))))
]
step_foreign id token until now s (renew k presented) t f h = elim (string_eq.dec id k) [
  | no other ↦ step_other id s now (renew k presented) other
  | yes same ↦ stranger-Kept id k token presented until (renewed now) s h (ground arith) same
]
step_foreign id token until now s (complete k presented) t f h = elim (string_eq.dec id k) [
  | no other ↦ step_other id s now (complete k presented) other
  | yes same ↦ stranger-Kept id k token presented until (finished now) s h (ground arith) same
]
step_foreign id token until now s (fail k presented m) t f h = elim (string_eq.dec id k) [
  | no other ↦ step_other id s now (fail k presented m) other
  | yes same ↦ stranger-Kept id k token presented until (given_up now m) s h (ground arith) same
]
step_foreign id token until now s (save k c st) t f h = rw (save-approvals k c st s)

-- A timed call before the lease ends.
abbrev pub ForeignBefore : String → String → ℕ → ℕ × Call → Type 0
ForeignBefore id token until (now, c) = (now ≤ until) × IsForeign id token c

-- While an execution is held under a token by a lease that runs to `until` at least, it is still so
-- held after any calls, none later than `until`, that neither create the approval anew nor present
-- the token: no other worker takes, renews, completes or fails it, and no decision changes the
-- approval.
pub run-Holds :
    (id token : String) (until : ℕ) (s : Store) (cs : List (ℕ × Call))
    → All (ForeignBefore id token until) cs
    → Holds id token until s
    → Holds id token until (run s cs)
unfolding run
run-Holds id token until s [] f h = h
run-Holds id token until s ((now, c) ∷ cs) f h = run-Holds id token until (step s (now, c)) cs f.1 (
    Holds-Kept id token until s (step s (now, c))
      (step_foreign id token until now s c f.0.0 f.0.1 h) h)

claimed-Holds :
    (now : ℕ) (token id : String) (s : Store) (a : Approval)
    → a.status ≡ approved
    → Holds id token
        (now + lease)
        (record s { approvals = insert id (claimed now token a) s.approvals })
unfolding claimed
claimed-Holds now token id s a agreed = record {
  record_of = claimed now token a;
  found = lookup-insert_self id (claimed now token a) s.approvals;
  runs = refl;
  ours = refl;
  agreed = agreed;
  end = now + lease;
  leased = refl;
  lasts = omega arith;
}

holder_completes :
    (now : ℕ) (id token : String) (until : ℕ) (t : Store)
    → Holds id token until t
    → (complete_execution now id token t).1 ≡ ok tt
unfolding complete_execution as_holder held_by
holder_completes now id token until t h = ground arith

pub begin-Holds :
    (now : ℕ) (token id conversation : String) (s : Store)
    → (begin_execution now token id conversation s).1 ≡ ok token
    → Holds id token (now + lease) (begin_execution now token id conversation s).0
begin-Holds now token id conversation s =
    begin_cases (λ r. r.1 ≡ ok token → Holds id token (now + lease) r.0) now token id conversation s
      (λ e. cc) λ a e c done. claimed-Holds now token id s a c.agreed

-- After a successful claim of an approval's execution, and any calls before its lease of two
-- minutes ends that neither create the approval anew nor present the claim's token, every further
-- claim until then is refused and leaves the store as it is, and the holder of the token can still
-- complete the execution.
pub begin_exclusive :
    (now later : ℕ) (token other id conversation elsewhere : String) (s : Store)
    (cs : List (ℕ × Call))
    → (begin_execution now token id conversation s).1 ≡ ok token
    → All (ForeignBefore id token (now + lease)) cs
    → later ≤ now + lease
    → let t = run (begin_execution now token id conversation s).0 cs in
      (begin_execution later other id elsewhere t ≡ (t, err execution_unavailable))
      × ((complete_execution later id token t).1 ≡ ok tt)
begin_exclusive now later token other id conversation elsewhere s cs done foreign before =
    let t = run (begin_execution now token id conversation s).0 cs in
    let h =
      run-Holds id token (now + lease) _ cs foreign
        (begin-Holds now token id conversation s done) in
    (
      begin_refused later other id elsewhere t h.record_of h.found (
          refused_while_leased later h.end elsewhere h.record_of h.runs h.leased
            (omega (arith, h.lasts))),
      holder_completes later id token (now + lease) t h,
    )
