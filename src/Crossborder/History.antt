-- ===== src/Crossborder/History.antt =====
-- Any sequence of the four mutating requests of projects/crossborder/internal/service/service.go, in
-- the order in which they take the mutex.
pub mod Typed
pub mod Refunds
pub mod Replay
pub mod Examples
use ecommerce_ops_agent.Base.{ℕ, ◌≡◌, refl, ◌∙◌, List, [], ◌∷◌, some, string_eq, arith}
use ecommerce_ops_agent.Base.Dict.{Dict, lookup}
use ecommerce_ops_agent.Crossborder.State.{Service}
use ecommerce_ops_agent.Crossborder.Transfer.{TransferRequest, create_transfer}
use ecommerce_ops_agent.Crossborder.Transfer.Ledger.{all_units, create_transfer-all_units}
use ecommerce_ops_agent.Crossborder.Warehouse.{ChangeRequest, change_fulfillment_warehouse}
use ecommerce_ops_agent.Crossborder.Warehouse.Stock.{change-all_units}
use ecommerce_ops_agent.Crossborder.Refund.{RefundRequest, approve_refund}
use ecommerce_ops_agent.Crossborder.Refund.Once.{approve_refund-inventory}
use ecommerce_ops_agent.Crossborder.Reconciliation.{ReconciliationRequest, create_reconciliation}
use ecommerce_ops_agent.Crossborder.Reconciliation.Cases.{create_reconciliation-inventory}

pub data Request : Type 0 where
  transfer : TransferRequest → Request
  change : ChangeRequest → Request
  refund : RefundRequest → Request
  reconcile : ReconciliationRequest → Request

pub step : Service → ℕ × Request → Service
step s (now, transfer req) = (create_transfer now req s).0
step s (now, change req) = (change_fulfillment_warehouse now req s).0
step s (now, refund req) = (approve_refund now req s).0
step s (now, reconcile req) = (create_reconciliation now req s).0

pub run : Service → List (ℕ × Request) → Service
unfolding step
run s [] = s
run s (r ∷ rs) = run (step s r) rs

step-all_units : (s : Service) (r : ℕ × Request) → all_units (step s r) ≡ all_units s
unfolding step
step-all_units s (now, transfer req) = create_transfer-all_units now req s
step-all_units s (now, change req) = change-all_units now req s
step-all_units s (now, refund req) = rw (approve_refund-inventory now req s)
step-all_units s (now, reconcile req) = rw (create_reconciliation-inventory now req s)

-- No history of requests makes or loses a unit of stock.
pub run-all_units : (s : Service) (rs : List (ℕ × Request)) → all_units (run s rs) ≡ all_units s
unfolding run
run-all_units s [] = refl
run-all_units s (r ∷ rs) = run-all_units (step s r) rs ∙ step-all_units s r
