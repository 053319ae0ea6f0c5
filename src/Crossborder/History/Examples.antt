-- ===== src/Crossborder/History/Examples.antt =====
-- Histories that start from the seeded service.
use text.Mathlib.TextEquality.{eq_iff}
use ecommerce_ops_agent.Base.{
  ℕ, String, ◌≡◌, ◌≢◌, refl, List, [], ◌∷◌, false, none, some, ok, err, arith, string_eq,
}
use ecommerce_ops_agent.Base.Int.{pos}
use ecommerce_ops_agent.Base.Dict.{lookup, insert}
use ecommerce_ops_agent.Crossborder.Domain.{Order, order_cancelled}
use ecommerce_ops_agent.Crossborder.State.{Service, invalid_transition, panic}
use ecommerce_ops_agent.Crossborder.Seeded.{new_seeded}
use ecommerce_ops_agent.Crossborder.Seeded.Facts.{seeded-KeyedById}
use ecommerce_ops_agent.Crossborder.Transfer.{TransferRequest, create_transfer}
use ecommerce_ops_agent.Crossborder.Transfer.Ledger.{all_units}
use ecommerce_ops_agent.Crossborder.Warehouse.{ChangeRequest, change_fulfillment_warehouse}
use ecommerce_ops_agent.Crossborder.Refund.{
  RefundRequest, approve_refund, new_refund, may_refund, commit_refund, refund_cache_key,
}
use ecommerce_ops_agent.Crossborder.Refund.Examples.{request, red_order, red-Accepted}
use ecommerce_ops_agent.Crossborder.Reconciliation.{
  ReconciliationRequest, create_reconciliation, new_case, commit_case,
}
use ecommerce_ops_agent.Crossborder.History.{
  Request, transfer, change, refund, reconcile, step, run, run-all_units,
}
use ecommerce_ops_agent.Crossborder.Transfer.Examples.{
  request as moved, made, moves_example, sfo_not_lax,
}
use ecommerce_ops_agent.Crossborder.History.Replay.{create_transfer_replay}
use ecommerce_ops_agent.Crossborder.History.Typed.{run_no_panic}
use ecommerce_ops_agent.Crossborder.History.Refunds.{IsCancelled, refund_once}

abbrev moving : TransferRequest
moving = record {
  sku = "SKU-BLACK-M-01";
  from_warehouse = "WH-US-SFO";
  to_warehouse = "WH-US-LAX";
  key = "k1";
  quantity = pos 5;
  dry_run = false;
}

abbrev rerouting : ChangeRequest
rerouting = record {
  order_id = "TTS-20260801-1001";
  to_warehouse = "WH-US-SFO";
  reason = "closer stock";
  key = "k1";
  dry_run = false;
}

abbrev settling : ReconciliationRequest
settling = record { statement_id = "STMT-2026-31"; reason = "fees"; key = "k1"; dry_run = false }

abbrev day : List (ℕ × Request)
day =
    (7, transfer moving)
    ∷ (8, change rerouting)
    ∷ (9, reconcile settling)
    ∷ (9, refund (request "TTS-20260801-1002" "k1" (pos 5990)))
    ∷ []

run-all_units_example : all_units (run (new_seeded 0) day) ≡ all_units (new_seeded 0)
run-all_units_example = run-all_units (new_seeded 0) day

run_no_panic_example :
    ((create_transfer 10 moving (run (new_seeded 0) day)).1 ≢ err panic)
    × ((change_fulfillment_warehouse 10 rerouting (run (new_seeded 0) day)).1 ≢ err panic)
    × ((approve_refund 10 (request "TTS-20260801-1002" "k1" (pos 5990)) (run (new_seeded 0) day)).1
        ≢ err panic)
    × ((create_reconciliation 10 settling (run (new_seeded 0) day)).1 ≢ err panic)
run_no_panic_example =
    run_no_panic (new_seeded 0) day 10 moving rerouting
      (request "TTS-20260801-1002" "k1" (pos 5990)) settling refl

abbrev refunded_shop : Service
refunded_shop = record (new_seeded 0) {
  orders = ("TTS-20260801-1002", record red_order { status = order_cancelled }) ∷ [];
}

refunded_keyed : (k : String) (o : Order) → lookup k refunded_shop.orders ≡ some o → o.id ≡ k
unfolding lookup
refunded_keyed k o e = ground arith

refunded-IsCancelled : IsCancelled "TTS-20260801-1002" refunded_shop.orders
unfolding lookup string_eq
refunded-IsCancelled = (record red_order { status = order_cancelled }, refl, refl)

abbrev then_settled : List (ℕ × Request)
then_settled = (8, reconcile settling) ∷ []

not_blank : ◌≢◌ {A = String} "k2" ""
not_blank = ground (arith, eq_iff "k2" "")

abbrev first : RefundRequest
first = request "TTS-20260801-1002" "k1" (pos 5990)

abbrev second : RefundRequest
second = request "TTS-20260801-1002" "k2" (pos 100)

unanswered :
    lookup
      (refund_cache_key "k2")
      (run (approve_refund 7 first (new_seeded 0)).0 then_settled).idempotency
    ≡ none
unfolding run step approve_refund new_refund may_refund commit_refund create_reconciliation new_case
    commit_case lookup insert string_eq
unanswered = refl

refund_once_example :
    approve_refund 9 second (run (approve_refund 7 first (new_seeded 0)).0 then_settled)
    ≡ (run (approve_refund 7 first (new_seeded 0)).0 then_settled, err invalid_transition)
refund_once_example =
    refund_once 7 9 first second (new_seeded 0) red_order then_settled (seeded-KeyedById 0)
      red-Accepted refl not_blank unanswered

-- The retry asks for another amount, after a day of other requests, and still gets the first transfer.
create_transfer_replay_example :
    let u = run (create_transfer 7 (moved (pos 5)) (new_seeded 0)).0 day in
    create_transfer 90 (moved (pos 2)) u ≡ (u, ok made)
create_transfer_replay_example =
    create_transfer_replay 7 90 (moved (pos 5)) (moved (pos 2)) (new_seeded 0) made day refl
      moves_example refl (omega arith) sfo_not_lax
