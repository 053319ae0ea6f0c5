-- ===== src/Crossborder/History/Typed.antt =====
-- The type assertions on cached answers, `cached.(domain.InventoryTransfer)` and the like.
use ecommerce_ops_agent.Base.{ℕ, ◌≡◌, sym, ◌≢◌, String, List, [], ◌∷◌, some, err, arith, string_eq}
use ecommerce_ops_agent.Base.Dict.{Dict, lookup, insert, lookup-insert}
use ecommerce_ops_agent.Crossborder.Domain.{
  InventoryTransfer, FulfillmentWarehouseChange, Refund, ReconciliationCase,
}
use ecommerce_ops_agent.Crossborder.State.{
  Service, Cached, transferred, changed, refunded, reconciled, panic,
}
use ecommerce_ops_agent.Crossborder.Keys.{
  transfer_not_change, transfer_not_refund, transfer_not_case, change_not_refund, change_not_case,
  refund_not_case,
}
use ecommerce_ops_agent.Crossborder.Transfer.{
  TransferRequest, create_transfer, commit_transfer, new_transfer, as_transfer, transfer_cache_key,
}
use ecommerce_ops_agent.Crossborder.Transfer.Cases.{create_transfer_cases}
use ecommerce_ops_agent.Crossborder.Warehouse.{
  ChangeRequest, change_fulfillment_warehouse, commit_change, new_change, as_change,
  change_cache_key,
}
use ecommerce_ops_agent.Crossborder.Warehouse.Stock.{change_cases}
use ecommerce_ops_agent.Crossborder.Refund.{
  RefundRequest, approve_refund, commit_refund, new_refund, as_refund, refund_cache_key,
}
use ecommerce_ops_agent.Crossborder.Refund.Once.{refund_cases}
use ecommerce_ops_agent.Crossborder.Reconciliation.{
  ReconciliationRequest, create_reconciliation, commit_case, new_case, as_case, case_cache_key,
}
use ecommerce_ops_agent.Crossborder.Reconciliation.Cases.{case_cases}
use ecommerce_ops_agent.Crossborder.History.{
  Request, transfer, change, refund, reconcile, step, run,
}

-- Under each prefix the map holds values of the prefix's own type.
pub record IsTyped (d : Dict String Cached) : Type 0 where
  pub transfers :
      (k : String) (c : Cached)
      → lookup (transfer_cache_key k) d ≡ some c
      → as_transfer c ≢ err panic
  pub changes :
      (k : String) (c : Cached) → lookup (change_cache_key k) d ≡ some c → as_change c ≢ err panic
  pub refunds :
      (k : String) (c : Cached) → lookup (refund_cache_key k) d ≡ some c → as_refund c ≢ err panic
  pub cases :
      (k : String) (c : Cached) → lookup (case_cache_key k) d ≡ some c → as_case c ≢ err panic

module _ (j : String) (d : Dict String Cached) (h : IsTyped d) where
  insert_transfer-IsTyped :
      (t : InventoryTransfer) → IsTyped (insert (transfer_cache_key j) (transferred t) d)
  insert_transfer-IsTyped t = record {
    transfers = λ k c e p. ground (
      arith,
      lookup-insert (transfer_cache_key k) (transfer_cache_key j) (transferred t) d,
      h.transfers k c,
    );
    changes = λ k c e p. ground (
      arith,
      lookup-insert (change_cache_key k) (transfer_cache_key j) (transferred t) d,
      h.changes k c,
      λ (q : change_cache_key k ≡ transfer_cache_key j). transfer_not_change j k (sym q),
    );
    refunds = λ k c e p. ground (
      arith,
      lookup-insert (refund_cache_key k) (transfer_cache_key j) (transferred t) d,
      h.refunds k c,
      λ (q : refund_cache_key k ≡ transfer_cache_key j). transfer_not_refund j k (sym q),
    );
    cases = λ k c e p. ground (
      arith,
      lookup-insert (case_cache_key k) (transfer_cache_key j) (transferred t) d,
      h.cases k c,
      λ (q : case_cache_key k ≡ transfer_cache_key j). transfer_not_case j k (sym q),
    );
  }

  insert_change-IsTyped :
      (t : FulfillmentWarehouseChange) → IsTyped (insert (change_cache_key j) (changed t) d)
  insert_change-IsTyped t = record {
    transfers = λ k c e p. ground (
      arith,
      lookup-insert (transfer_cache_key k) (change_cache_key j) (changed t) d,
      h.transfers k c,
      transfer_not_change k j,
    );
    changes = λ k c e p. ground (
      arith,
      lookup-insert (change_cache_key k) (change_cache_key j) (changed t) d,
      h.changes k c,
    );
    refunds = λ k c e p. ground (
      arith,
      lookup-insert (refund_cache_key k) (change_cache_key j) (changed t) d,
      h.refunds k c,
      λ (q : refund_cache_key k ≡ change_cache_key j). change_not_refund j k (sym q),
    );
    cases = λ k c e p. ground (
      arith,
      lookup-insert (case_cache_key k) (change_cache_key j) (changed t) d,
      h.cases k c,
      λ (q : case_cache_key k ≡ change_cache_key j). change_not_case j k (sym q),
    );
  }

  insert_refund-IsTyped : (t : Refund) → IsTyped (insert (refund_cache_key j) (refunded t) d)
  insert_refund-IsTyped t = record {
    transfers = λ k c e p. ground (
      arith,
      lookup-insert (transfer_cache_key k) (refund_cache_key j) (refunded t) d,
      h.transfers k c,
      transfer_not_refund k j,
    );
    changes = λ k c e p. ground (
      arith,
      lookup-insert (change_cache_key k) (refund_cache_key j) (refunded t) d,
      h.changes k c,
      change_not_refund k j,
    );
    refunds = λ k c e p. ground (
      arith,
      lookup-insert (refund_cache_key k) (refund_cache_key j) (refunded t) d,
      h.refunds k c,
    );
    cases = λ k c e p. ground (
      arith,
      lookup-insert (case_cache_key k) (refund_cache_key j) (refunded t) d,
      h.cases k c,
      λ (q : case_cache_key k ≡ refund_cache_key j). refund_not_case j k (sym q),
    );
  }

  insert_case-IsTyped :
      (t : ReconciliationCase) → IsTyped (insert (case_cache_key j) (reconciled t) d)
  insert_case-IsTyped t = record {
    transfers = λ k c e p. ground (
      arith,
      lookup-insert (transfer_cache_key k) (case_cache_key j) (reconciled t) d,
      h.transfers k c,
      transfer_not_case k j,
    );
    changes = λ k c e p. ground (
      arith,
      lookup-insert (change_cache_key k) (case_cache_key j) (reconciled t) d,
      h.changes k c,
      change_not_case k j,
    );
    refunds = λ k c e p. ground (
      arith,
      lookup-insert (refund_cache_key k) (case_cache_key j) (reconciled t) d,
      h.refunds k c,
      refund_not_case k j,
    );
    cases = λ k c e p.
        ground (
          arith,
          lookup-insert (case_cache_key k) (case_cache_key j) (reconciled t) d,
          h.cases k c,
        );
  }

step-IsTyped :
    (s : Service) (r : ℕ × Request) → IsTyped s.idempotency → IsTyped (step s r).idempotency
unfolding step commit_transfer commit_change commit_refund commit_case
step-IsTyped s (now, transfer req) h =
    create_transfer_cases (λ t. IsTyped t.idempotency) now req s h
      (λ lane from a. insert_transfer-IsTyped req.key s.idempotency h _)
step-IsTyped s (now, change req) h =
    change_cases (λ t. IsTyped t.idempotency) now req s h
      (λ order a. insert_change-IsTyped req.key s.idempotency h _)
step-IsTyped s (now, refund req) h =
    refund_cases (λ t. IsTyped t.idempotency) now req s h
      (λ order a. insert_refund-IsTyped req.key s.idempotency h _)
step-IsTyped s (now, reconcile req) h =
    case_cases (λ t. IsTyped t.idempotency) now req s h
      (λ statement a. insert_case-IsTyped req.key s.idempotency h _)

run-IsTyped :
    (s : Service) (rs : List (ℕ × Request)) → IsTyped s.idempotency → IsTyped (run s rs).idempotency
unfolding run
run-IsTyped s [] h = h
run-IsTyped s (r ∷ rs) h = run-IsTyped (step s r) rs (step-IsTyped s r h)

pub empty-IsTyped : IsTyped []
unfolding lookup
empty-IsTyped = record {
  transfers = λ k c e. cc;
  changes = λ k c e. cc;
  refunds = λ k c e. cc;
  cases = λ k c e. cc;
}

transfer_panics_not :
    (now : ℕ) (req : TransferRequest) (s : Service)
    → IsTyped s.idempotency
    → (create_transfer now req s).1 ≢ err panic
unfolding create_transfer new_transfer commit_transfer
transfer_panics_not now req s h e = grind (arith, h.transfers req.key)

change_panics_not :
    (now : ℕ) (req : ChangeRequest) (s : Service)
    → IsTyped s.idempotency
    → (change_fulfillment_warehouse now req s).1 ≢ err panic
unfolding change_fulfillment_warehouse new_change commit_change
change_panics_not now req s h e = grind (arith, h.changes req.key)

refund_panics_not :
    (now : ℕ) (req : RefundRequest) (s : Service)
    → IsTyped s.idempotency
    → (approve_refund now req s).1 ≢ err panic
unfolding approve_refund new_refund commit_refund
refund_panics_not now req s h e = grind (arith, h.refunds req.key)

case_panics_not :
    (now : ℕ) (req : ReconciliationRequest) (s : Service)
    → IsTyped s.idempotency
    → (create_reconciliation now req s).1 ≢ err panic
unfolding create_reconciliation new_case commit_case
case_panics_not now req s h e = grind (arith, h.cases req.key)

-- From a service with no cached answers, after any history of requests, no type assertion on a
-- cached answer fails: none of the four requests panics.
pub run_no_panic :
    (s : Service) (rs : List (ℕ × Request)) (now : ℕ) (t : TransferRequest) (c : ChangeRequest)
    (r : RefundRequest) (q : ReconciliationRequest)
    → s.idempotency ≡ []
    → ((create_transfer now t (run s rs)).1 ≢ err panic)
      × ((change_fulfillment_warehouse now c (run s rs)).1 ≢ err panic)
      × ((approve_refund now r (run s rs)).1 ≢ err panic)
      × ((create_reconciliation now q (run s rs)).1 ≢ err panic)
run_no_panic s rs now t c r q none_cached =
    let h = run-IsTyped s rs (rw none_cached empty-IsTyped) in
    (
      transfer_panics_not now t (run s rs) h,
      change_panics_not now c (run s rs) h,
      refund_panics_not now r (run s rs) h,
      case_panics_not now q (run s rs) h,
    )
