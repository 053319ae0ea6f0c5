-- ===== src/Crossborder/Reconciliation/Cases.antt =====
-- What `CreateReconciliation` opens, and for which statements.
use ecommerce_ops_agent.Base.{
  ℕ, ◌≡◌, refl, ◌≢◌, inl, inr, false, none, some, ok, arith, string_eq, Bool-cases, Option-cases,
  ◌==◌, ◌+◌, ◌<>◌, length,
}
use ecommerce_ops_agent.Base.Int.{◌-ℤ◌}
use ecommerce_ops_agent.Base.Dict.{lookup, lookup-insert_self}
use ecommerce_ops_agent.Crossborder.Domain.{SettlementStatement, ReconciliationCase}
use ecommerce_ops_agent.Crossborder.Decimal.{four_digits}
use ecommerce_ops_agent.Crossborder.State.{Service, reconciled}
use ecommerce_ops_agent.Crossborder.Reconciliation.{
  ReconciliationRequest, create_reconciliation, new_case, commit_case, case_record, case_cache_key,
}

-- What holds where a case is opened.
pub record Accepted (req : ReconciliationRequest) (s : Service) (statement : SettlementStatement)
    : Type 0 where
  pub keyed : req.key ≢ ""
  pub fresh : lookup (case_cache_key req.key) s.idempotency ≡ none
  pub found : lookup req.statement_id s.statements ≡ some statement
  pub differs : statement.status ≡ "difference_detected"
  pub wet : req.dry_run ≡ false

pub case_cases {ℓ} :
    (P : Service → Type ℓ) (now : ℕ) (req : ReconciliationRequest) (s : Service)
    → P s
    → ((statement : SettlementStatement)
        → Accepted req s statement
        → P (commit_case now req statement s).0)
    → P (create_reconciliation now req s).0
unfolding create_reconciliation new_case commit_case
case_cases P now req s same commits = elim (Bool-cases (req.key == "")) [
  | inl e ↦ rw e same
  | inr keyed ↦ elim (Option-cases (lookup (case_cache_key req.key) s.idempotency)) [
    | inr (c, e) ↦ rw (keyed, e, create_reconciliation) same
    | inl fresh ↦ elim (Option-cases (lookup req.statement_id s.statements)) [
      | inl e ↦ rw (keyed, fresh, e, create_reconciliation, new_case) same
      | inr (statement, found) ↦ elim (Bool-cases (statement.status == "difference_detected")) [
        | inr e ↦ rw (keyed, fresh, found, e, create_reconciliation, new_case) same
        | inl differs ↦ elim (Bool-cases req.dry_run) [
          | inl e ↦ rw (keyed, fresh, found, differs, e, create_reconciliation, new_case) same
          | inr wet ↦
              rw (keyed, fresh, found, differs, wet, create_reconciliation, new_case)
                (commits statement (record {
                  keyed = ground arith;
                  fresh = fresh;
                  found = found;
                  differs = ground arith;
                  wet = wet;
                }))
        ]
      ]
    ]
  ]
]

case_committed :
    (now : ℕ) (req : ReconciliationRequest) (s : Service) (statement : SettlementStatement)
    → Accepted req s statement
    → create_reconciliation now req s ≡ commit_case now req statement s
unfolding create_reconciliation new_case
case_committed now req s statement a = ground arith

-- A request about a statement with a detected difference opens a case for what was expected less
-- what was paid, and the case is what a repetition under the same key will be answered with.
pub create_reconciliation_opens :
    (now : ℕ) (req : ReconciliationRequest) (s : Service) (statement : SettlementStatement)
    → Accepted req s statement
    → (item : ReconciliationCase) × ((create_reconciliation now req s).1 ≡ ok item)
      × (item.statement_id ≡ statement.id)
      × (item.difference ≡ statement.expected_amount -ℤ statement.paid_amount)
      × (lookup (case_cache_key req.key) (create_reconciliation now req s).0.idempotency
          ≡ some (reconciled item))
      × (lookup item.id (create_reconciliation now req s).0.reconciliations ≡ some item)
unfolding commit_case
create_reconciliation_opens now req s statement a =
    let item =
      case_record req statement ("RC-" <> four_digits (length s.reconciliations + 1)) "submitted"
        now in
    let done : create_reconciliation now req s ≡ commit_case now req statement s =
      case_committed now req s statement a in
    (
      item,
      rw done,
      refl,
      refl,
      rw done (lookup-insert_self (case_cache_key req.key) (reconciled item) s.idempotency),
      rw done (lookup-insert_self item.id item s.reconciliations),
    )

pub create_reconciliation-inventory :
    (now : ℕ) (req : ReconciliationRequest) (s : Service)
    → (create_reconciliation now req s).0.inventory ≡ s.inventory
unfolding commit_case
create_reconciliation-inventory now req s =
    case_cases (λ t. t.inventory ≡ s.inventory) now req s refl (λ statement a. refl)
