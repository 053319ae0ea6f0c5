-- ===== src/Crossborder/Warehouse.antt =====
-- `ChangeFulfillmentWarehouse` of projects/crossborder/internal/service/service.go.
pub mod Stock
pub mod Oversell
pub mod Examples
use ecommerce_ops_agent.Base.{
  ℕ, ◌+◌, String, ◌<>◌, List, [], ◌∷◌, Bool, true, false, ◌&&◌, ◌||◌, not, Option, none, some,
  Result, ok, err, if◌then◌else◌, ◌==◌, string_eq, length,
}
use ecommerce_ops_agent.Base.Int.{◌+ℤ◌, ◌-ℤ◌, ltb_ℤ}
use ecommerce_ops_agent.Base.Dict.{Dict, lookup, insert}
use ecommerce_ops_agent.Crossborder.Domain.{
  Order, OrderItem, InventoryBalance, FulfillmentWarehouseChange, order_awaiting_shipment,
  order_partially_shipped,
}
use ecommerce_ops_agent.Crossborder.Decimal.{four_digits}
use ecommerce_ops_agent.Crossborder.State.{
  Service, Error, not_found, invalid_transition, insufficient_stock, idempotency_key, panic, Cached,
  changed, inventory_key, balance_or_zero,
}

pub record ChangeRequest : Type 0 where
  pub order_id : String
  pub to_warehouse : String
  pub reason : String
  pub key : String
  pub dry_run : Bool

abbrev pub as_change : Cached → Result Error FulfillmentWarehouseChange
as_change (changed c) = ok c
as_change _ = err panic

abbrev pub covers : Option InventoryBalance → OrderItem → Bool
covers none item = false
covers (some b) item = not (ltb_ℤ b.available item.quantity)

-- The first loop: each item alone against the stock as it was.
pub all_covered : String → List OrderItem → Dict String InventoryBalance → Bool
all_covered warehouse [] inventory = true
all_covered warehouse (item ∷ items) inventory =
    covers (lookup (inventory_key warehouse item.sku) inventory) item
    && all_covered warehouse items inventory

abbrev pub take_item : OrderItem → InventoryBalance → InventoryBalance
take_item item b = record b {
  available = b.available -ℤ item.quantity;
  reserved = b.reserved +ℤ item.quantity;
}

-- The second loop: each item moves from available to reserved.
pub reserve_items :
    String → List OrderItem → Dict String InventoryBalance → Dict String InventoryBalance
reserve_items warehouse [] inventory = inventory
reserve_items warehouse (item ∷ items) inventory =
    let key = inventory_key warehouse item.sku in
    reserve_items warehouse items
      (insert key (take_item item (balance_or_zero (lookup key inventory))) inventory)

pub validated_change : ChangeRequest → Order → FulfillmentWarehouseChange
validated_change req order = record {
  id = "";
  order_id = req.order_id;
  from_warehouse = order.fulfillment_wh;
  to_warehouse = req.to_warehouse;
  reason = req.reason;
  status = "validated";
  created_at = 0;
}

abbrev pub change_cache_key : String → String
change_cache_key key = "fulfillment-warehouse:" <> key

unfoldable pub commit_change :
    ℕ → ChangeRequest → Order → Service → Service × Result Error FulfillmentWarehouseChange
unfolding reserve_items validated_change
commit_change now req order s =
    let id = "FW-" <> four_digits (length s.warehouse_changes + 1) in
    let validated = validated_change req order in
    let change = record validated { id = id; status = "changed"; created_at = now } in
    (
      record s {
        inventory = reserve_items req.to_warehouse order.items s.inventory;
        orders = insert order.id (record order { fulfillment_wh = req.to_warehouse }) s.orders;
        warehouse_changes = insert id change s.warehouse_changes;
        idempotency = insert (change_cache_key req.key) (changed change) s.idempotency;
      },
      ok change,
    )

unfoldable pub may_change : ChangeRequest → Order → Bool
may_change req order =
    (order.status == order_awaiting_shipment || order.status == order_partially_shipped)
    && (not (req.to_warehouse == "") && not (req.to_warehouse == order.fulfillment_wh))

unfoldable pub new_change :
    ℕ → ChangeRequest → Service → Service × Result Error FulfillmentWarehouseChange
unfolding may_change all_covered
new_change now req s = elim (lookup req.order_id s.orders) [
  | none ↦ (s, err not_found)
  | some order ↦
      if not (may_change req order)
      then (s, err invalid_transition)
      else if not (all_covered req.to_warehouse order.items s.inventory)
      then (s, err insufficient_stock)
      else if req.dry_run
      then (s, ok (validated_change req order))
      else commit_change now req order s
]

unfoldable pub change_fulfillment_warehouse :
    ℕ → ChangeRequest → Service → Service × Result Error FulfillmentWarehouseChange
change_fulfillment_warehouse now req s =
    if req.key == ""
    then (s, err idempotency_key)
    else elim (lookup (change_cache_key req.key) s.idempotency) [
      | some cached ↦ (s, as_change cached)
      | none ↦ new_change now req s
    ]
