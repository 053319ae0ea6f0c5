-- ===== src/Crossborder/Warehouse/Examples.antt =====
-- `ChangeFulfillmentWarehouse` on the seeded service, and on one order that names an article twice.
use text.Mathlib.TextEquality.{eq_iff}
use ecommerce_ops_agent.Base.{String, ◌≡◌, ◌≢◌, refl, [], ◌∷◌, false, some, err, arith, string_eq}
use ecommerce_ops_agent.Base.Int.{pos, ◌+ℤ◌}
use ecommerce_ops_agent.Base.Dict.{lookup}
use ecommerce_ops_agent.Crossborder.Domain.{
  Order, OrderItem, InventoryBalance, order_awaiting_shipment,
}
use ecommerce_ops_agent.Crossborder.State.{Service, insufficient_stock, inventory_key}
use ecommerce_ops_agent.Crossborder.Seeded.{new_seeded}
use ecommerce_ops_agent.Crossborder.Seeded.Facts.{seeded-IsStocked, seeded-DistinctSkus}
use ecommerce_ops_agent.Crossborder.Transfer.Ledger.{IsStocked}
use ecommerce_ops_agent.Crossborder.Warehouse.{
  ChangeRequest, change_fulfillment_warehouse, new_change, may_change, all_covered,
}
use ecommerce_ops_agent.Crossborder.Warehouse.Stock.{Accepted}
use ecommerce_ops_agent.Crossborder.Warehouse.Oversell.{change-IsStocked, change_oversells}

abbrev request : String → String → ChangeRequest
request order warehouse = record {
  order_id = order;
  to_warehouse = warehouse;
  reason = "closer stock";
  key = "k1";
  dry_run = false;
}

no_stock :
    (change_fulfillment_warehouse 7 (request "TTS-20260801-1001" "WH-US-BOS") (new_seeded 0)).1
    ≡ err insufficient_stock
unfolding change_fulfillment_warehouse new_change may_change all_covered lookup string_eq
no_stock = refl

change-IsStocked_example :
    IsStocked
      (change_fulfillment_warehouse 7
        (request "TTS-20260801-1001" "WH-US-SFO")
        (new_seeded 0)).0.inventory
change-IsStocked_example =
    change-IsStocked 7 (request "TTS-20260801-1001" "WH-US-SFO") (new_seeded 0)
      (seeded-DistinctSkus 0) (seeded-IsStocked 0)

abbrev line : OrderItem
line = record { sku = "SKU-BLACK-M-01"; quantity = pos 10; price = pos 12999 }

abbrev twice : Order
twice = record {
  id = "TTS-1";
  shop_id = "SHOP-US-001";
  market = "US";
  currency = "USD";
  amount = pos 259980;
  status = order_awaiting_shipment;
  fulfillment_wh = "WH-US-LAX";
  ship_by = 9;
  items = line ∷ line ∷ [];
  buyer_cancellation_requested = false;
}

abbrev eighteen : InventoryBalance
eighteen = record {
  warehouse_id = "WH-US-SFO";
  sku = "SKU-BLACK-M-01";
  available = pos 18;
  reserved = pos 0;
  inbound = pos 0;
}

abbrev shop : Service
shop = record (new_seeded 0) { orders = ("TTS-1", twice) ∷ [] }

not_blank : ◌≢◌ {A = String} "k1" ""
not_blank = ground (arith, eq_iff "k1" "")

twice-Accepted : Accepted (request "TTS-1" "WH-US-SFO") shop twice
unfolding lookup may_change all_covered string_eq
twice-Accepted = record {
  keyed = not_blank;
  fresh = refl;
  found = refl;
  allowed = refl;
  covered = refl;
  wet = refl;
}

stocked_with : lookup (inventory_key "WH-US-SFO" "SKU-BLACK-M-01") shop.inventory ≡ some eighteen
unfolding lookup string_eq
stocked_with = refl

change_oversells_example :
    ¬ IsStocked (change_fulfillment_warehouse 7 (request "TTS-1" "WH-US-SFO") shop).0.inventory
unfolding ◌+ℤ◌
change_oversells_example =
    change_oversells 7 (request "TTS-1" "WH-US-SFO") shop twice line line eighteen twice-Accepted
      refl refl stocked_with (omega arith)
