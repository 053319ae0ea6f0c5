-- ===== src/Crossborder/Reconciliation.antt =====
-- `CreateReconciliation` of projects/crossborder/internal/service/service.go.
pub mod Cases
use ecommerce_ops_agent.Base.{
  ℕ, ◌+◌, String, ◌<>◌, Bool, not, none, some, Result, ok, err, if◌then◌else◌, ◌==◌, string_eq,
  length,
}
use ecommerce_ops_agent.Base.Int.{◌-ℤ◌}
use ecommerce_ops_agent.Base.Dict.{lookup, insert}
use ecommerce_ops_agent.Crossborder.Domain.{SettlementStatement, ReconciliationCase}
use ecommerce_ops_agent.Crossborder.Decimal.{four_digits}
use ecommerce_ops_agent.Crossborder.State.{
  Service, Error, not_found, invalid_transition, idempotency_key, panic, Cached, reconciled,
}

pub record ReconciliationRequest : Type 0 where
  pub statement_id : String
  pub reason : String
  pub key : String
  pub dry_run : Bool

abbrev pub as_case : Cached → Result Error ReconciliationCase
as_case (reconciled c) = ok c
as_case _ = err panic

pub case_record :
    ReconciliationRequest → SettlementStatement → String → String → ℕ → ReconciliationCase
case_record req statement id status created_at = record {
  id = id;
  statement_id = statement.id;
  difference = statement.expected_amount -ℤ statement.paid_amount;
  reason = req.reason;
  status = status;
  created_at = created_at;
}

abbrev pub case_cache_key : String → String
case_cache_key key = "reconciliation:" <> key

unfoldable pub commit_case :
    ℕ
    → ReconciliationRequest
    → SettlementStatement
    → Service
    → Service × Result Error ReconciliationCase
unfolding case_record
commit_case now req statement s =
    let id = "RC-" <> four_digits (length s.reconciliations + 1) in
    let item = case_record req statement id "submitted" now in
    (
      record s {
        reconciliations = insert id item s.reconciliations;
        idempotency = insert (case_cache_key req.key) (reconciled item) s.idempotency;
      },
      ok item,
    )

unfoldable pub new_case :
    ℕ → ReconciliationRequest → Service → Service × Result Error ReconciliationCase
new_case now req s = elim (lookup req.statement_id s.statements) [
  | none ↦ (s, err not_found)
  | some statement ↦
      if not (statement.status == "difference_detected")
      then (s, err invalid_transition)
      else if req.dry_run
      then (s, ok (case_record req statement "" "validated" 0))
      else commit_case now req statement s
]

unfoldable pub create_reconciliation :
    ℕ → ReconciliationRequest → Service → Service × Result Error ReconciliationCase
create_reconciliation now req s =
    if req.key == ""
    then (s, err idempotency_key)
    else elim (lookup (case_cache_key req.key) s.idempotency) [
      | some cached ↦ (s, as_case cached)
      | none ↦ new_case now req s
    ]
