-- ===== src/Crossborder/Refund/Examples.antt =====
-- `ApproveRefund` on the seeded service.
use text.Mathlib.TextEquality.{eq_iff}
use ecommerce_ops_agent.Base.{
  String, ◌≡◌, ◌≢◌, refl, [], ◌∷◌, true, false, some, ok, err, arith, string_eq, ◌*◌,
}
use ecommerce_ops_agent.Base.Int.{ℤ, pos, ◌<ℤ◌, ◌≤ℤ◌}
use ecommerce_ops_agent.Base.Dict.{lookup}
use ecommerce_ops_agent.Crossborder.Domain.{Order, Refund, order_awaiting_shipment}
use ecommerce_ops_agent.Crossborder.State.{Error, invalid_transition, hour}
use ecommerce_ops_agent.Crossborder.Seeded.{new_seeded}
use ecommerce_ops_agent.Crossborder.Refund.{RefundRequest, approve_refund, new_refund, may_refund}
use ecommerce_ops_agent.Crossborder.Refund.Once.{Accepted, approve_refund_checks}

abbrev key : String
key = "k1"

abbrev pub request : String → String → ℤ → RefundRequest
request order key amount = record {
  order_id = order;
  reason = "buyer asked";
  key = key;
  amount = amount;
  dry_run = false;
}

abbrev pub red_order : Order
red_order = record {
  id = "TTS-20260801-1002";
  shop_id = "SHOP-US-001";
  market = "US";
  currency = "USD";
  amount = pos 5990;
  status = order_awaiting_shipment;
  fulfillment_wh = "WH-US-LAX";
  ship_by = 20 * hour;
  items = record { sku = "SKU-RED-L-02"; quantity = pos 1; price = pos 5990 } ∷ [];
  buyer_cancellation_requested = true;
}

not_blank : ◌≢◌ {A = String} "k1" ""
not_blank = ground (arith, eq_iff "k1" "")

pub red-Accepted : Accepted (request "TTS-20260801-1002" "k1" (pos 5990)) (new_seeded 0) red_order
unfolding lookup string_eq
red-Accepted = record {
  keyed = not_blank;
  fresh = refl;
  found = refl;
  awaiting = refl;
  asked = refl;
  positive = omega arith;
  bounded = omega arith;
  wet = refl;
}

approve_refund_checks_example :
    ((refund : Refund)
      → (approve_refund 7 (request "TTS-20260801-1002" "k1" (pos 5990)) (new_seeded 0)).1
        ≡ ok refund
      → (order : Order) × (lookup "TTS-20260801-1002" (new_seeded 0).orders ≡ some order)
        × (key ≢ "")
        × (order.status ≡ "awaiting_shipment")
        × (order.buyer_cancellation_requested ≡ true)
        × (refund.amount ≡ pos 5990)
        × (pos 0 <ℤ refund.amount)
        × (refund.amount ≤ℤ order.amount))
    × ((e : Error)
        → (approve_refund 7 (request "TTS-20260801-1002" "k1" (pos 5990)) (new_seeded 0)).1 ≡ err e
        → (approve_refund 7 (request "TTS-20260801-1002" "k1" (pos 5990)) (new_seeded 0)).0
          ≡ new_seeded 0)
unfolding lookup
approve_refund_checks_example =
    approve_refund_checks 7 (request "TTS-20260801-1002" "k1" (pos 5990)) (new_seeded 0) refl refl

-- A cent too much is refused.
too_much :
    (approve_refund 7 (request "TTS-20260801-1002" "k1" (pos 5991)) (new_seeded 0)).1
    ≡ err invalid_transition
unfolding approve_refund new_refund may_refund lookup string_eq
too_much = refl
