-- ===== src/Crossborder/Queries.antt =====
-- The read-only methods of projects/crossborder/internal/service/service.go.
use ecommerce_ops_agent.Base.{
  ℕ, ◌+◌, ◌*◌, String, List, [], ◌∷◌, Bool, true, false, Option, none, some, Result, ok, err, ◌>>=◌,
  if◌then◌else◌, ◌==◌, string_eq,
}
use ecommerce_ops_agent.Base.Int.{pos, ltb_ℤ}
use ecommerce_ops_agent.Base.Dict.{Dict, lookup, values}
use ecommerce_ops_agent.Crossborder.Domain.{
  Order, InventoryBalance, TransferLane, ShippingOption, SettlementStatement,
}
use ecommerce_ops_agent.Crossborder.State.{Service, Error, not_found, hour, or_fail, inventory_key}

pub get_order : String → Service → Result Error Order
get_order id s = or_fail (lookup id s.orders) not_found

pub get_statement : String → Service → Result Error SettlementStatement
get_statement id s = or_fail (lookup id s.statements) not_found

pub balances_of : String → List InventoryBalance → List InventoryBalance
balances_of sku [] = []
balances_of sku (b ∷ bs) = let rest = balances_of sku bs in if b.sku == sku then b ∷ rest else rest

pub inventory_of : String → Service → List InventoryBalance
unfolding balances_of
inventory_of sku s = balances_of sku (values s.inventory)

pub in_stock : Option InventoryBalance → Bool
in_stock none = false
in_stock (some b) = ltb_ℤ (pos 0) b.available

pub open_lanes : String → ℕ → Dict String InventoryBalance → List TransferLane → List TransferLane
unfolding in_stock
open_lanes sku observed_at inventory [] = []
open_lanes sku observed_at inventory (lane ∷ lanes) =
    let rest = open_lanes sku observed_at inventory lanes in
    if in_stock (lookup (inventory_key lane.from_warehouse sku) inventory)
    then record lane { estimated_arrival = observed_at + lane.estimated_hours * hour } ∷ rest
    else rest

pub transfer_lanes_of : String → ℕ → Service → List TransferLane
unfolding open_lanes
transfer_lanes_of sku observed_at s = open_lanes sku observed_at s.inventory s.transfer_lanes

pub shipping_option : String → String → String → ℕ → ℕ → Bool → ShippingOption
shipping_option warehouse provider service cost days eligible = record {
  warehouse_id = warehouse;
  provider = provider;
  service = service;
  cost = pos cost;
  currency = "USD";
  delivery_days = days;
  sla_eligible = eligible;
}

pub options_at : String → Result Error (List ShippingOption)
unfolding shipping_option
options_at warehouse =
    if warehouse == "WH-US-LAX"
    then ok (
        shipping_option warehouse "USPS" "Priority Mail" 1020 3 true
        ∷ shipping_option warehouse "UPS" "Ground" 940 4 true
        ∷ [])
    else if warehouse == "WH-US-BOS"
    then ok (
        shipping_option warehouse "FedEx" "2Day" 1450 2 true
        ∷ shipping_option warehouse "UPS" "Ground" 1110 5 false
        ∷ [])
    else err not_found

pub shipping_options : String → String → Service → Result Error (List ShippingOption)
unfolding get_order options_at
shipping_options order_id warehouse_id s = do
  order ← get_order order_id s
  options_at (if warehouse_id == "" then order.fulfillment_wh else warehouse_id)
