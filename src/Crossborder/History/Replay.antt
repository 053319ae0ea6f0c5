-- ===== src/Crossborder/History/Replay.antt =====
-- The answers that are cached under an idempotency key stay for ever, so a transfer is made once.
use ecommerce_ops_agent.Base.{
  ℕ, ◌≡◌, ◌≢◌, String, List, [], ◌∷◌, none, some, false, ok, arith, string_eq,
}
use ecommerce_ops_agent.Base.Int.{pos, ◌<ℤ◌}
use ecommerce_ops_agent.Base.Dict.{Dict, lookup, insert, lookup-insert}
use ecommerce_ops_agent.Crossborder.Domain.{InventoryTransfer}
use ecommerce_ops_agent.Crossborder.State.{Service, Cached, transferred}
use ecommerce_ops_agent.Crossborder.Transfer.{
  TransferRequest, create_transfer, commit_transfer, transfer_cache_key,
}
use ecommerce_ops_agent.Crossborder.Transfer.Cases.{create_transfer_cases}
use ecommerce_ops_agent.Crossborder.Transfer.Replay.{recorded, replayed, keyed_of_ok}
use ecommerce_ops_agent.Crossborder.Warehouse.{commit_change}
use ecommerce_ops_agent.Crossborder.Warehouse.Stock.{change_cases}
use ecommerce_ops_agent.Crossborder.Refund.{commit_refund}
use ecommerce_ops_agent.Crossborder.Refund.Once.{refund_cases}
use ecommerce_ops_agent.Crossborder.Reconciliation.{commit_case}
use ecommerce_ops_agent.Crossborder.Reconciliation.Cases.{case_cases}
use ecommerce_ops_agent.Crossborder.History.{
  Request, transfer, change, refund, reconcile, step, run,
}

insert_fresh :
    (key other : String) (c : Cached) (new : Cached) (d : Dict String Cached)
    → lookup other d ≡ none
    → lookup key d ≡ some c
    → lookup key (insert other new d) ≡ some c
insert_fresh key other c new d fresh held = ground (arith, lookup-insert key other new d)

module _ (key : String) (c : Cached) where
  step_keeps :
      (s : Service) (r : ℕ × Request)
      → lookup key s.idempotency ≡ some c
      → lookup key (step s r).idempotency ≡ some c
  unfolding step commit_transfer commit_change commit_refund commit_case
  step_keeps s (now, transfer req) h =
      create_transfer_cases (λ t. lookup key t.idempotency ≡ some c) now req s h
        (λ lane from a. insert_fresh key _ c _ s.idempotency a.fresh h)
  step_keeps s (now, change req) h =
      change_cases (λ t. lookup key t.idempotency ≡ some c) now req s h
        (λ order a. insert_fresh key _ c _ s.idempotency a.fresh h)
  step_keeps s (now, refund req) h =
      refund_cases (λ t. lookup key t.idempotency ≡ some c) now req s h
        (λ order a. insert_fresh key _ c _ s.idempotency a.fresh h)
  step_keeps s (now, reconcile req) h =
      case_cases (λ t. lookup key t.idempotency ≡ some c) now req s h
        (λ statement a. insert_fresh key _ c _ s.idempotency a.fresh h)

  run_keeps :
      (s : Service) (rs : List (ℕ × Request))
      → lookup key s.idempotency ≡ some c
      → lookup key (run s rs).idempotency ≡ some c
  unfolding run
  run_keeps s [] h = h
  run_keeps s (r ∷ rs) h = run_keeps (step s r) rs (step_keeps s r h)

-- After a transfer was made, no dry run, and after any history of further requests: a request under
-- the same key for a positive quantity between two different warehouses, whatever else it asks, gets
-- the same transfer back and changes nothing.
pub create_transfer_replay :
    (now later : ℕ) (req again : TransferRequest) (s : Service) (t : InventoryTransfer)
    (rs : List (ℕ × Request))
    → req.dry_run ≡ false
    → (create_transfer now req s).1 ≡ ok t
    → again.key ≡ req.key
    → pos 0 <ℤ again.quantity
    → again.from_warehouse ≢ again.to_warehouse
    → let u = run (create_transfer now req s).0 rs in create_transfer later again u ≡ (u, ok t)
create_transfer_replay now later req again s t rs wet done same positive apart =
    replayed later again (run (create_transfer now req s).0 rs) t
      (rw same (
        run_keeps (transfer_cache_key req.key) (transferred t) (create_transfer now req s).0 rs
          (recorded now req s t wet done)))
      (rw same (keyed_of_ok now req s t done)) positive apart
