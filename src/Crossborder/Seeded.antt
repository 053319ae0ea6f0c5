-- ===== src/Crossborder/Seeded.antt =====
-- `NewSeeded` of projects/crossborder/internal/service/service.go: the service as it starts.
pub mod Facts
use ecommerce_ops_agent.Base.{ℕ, ◌+◌, ◌*◌, ◌/◌, String, [], ◌∷◌, Bool, true, false, string_eq}
use ecommerce_ops_agent.Base.Int.{ℤ, pos}
use ecommerce_ops_agent.Crossborder.Domain.{
  Order, InventoryBalance, TransferLane, order_awaiting_shipment,
}
use ecommerce_ops_agent.Crossborder.State.{Service, hour, inventory_key}

-- `time.Now().UTC().Truncate(time.Second)`
abbrev to_second : ℕ → ℕ
to_second now = now / 1000000000 * 1000000000

abbrev seeded_order : String → String → ℤ → ℕ → Bool → Order
seeded_order id sku amount ship_by cancels = record {
  id = id;
  shop_id = "SHOP-US-001";
  market = "US";
  currency = "USD";
  amount = amount;
  status = order_awaiting_shipment;
  fulfillment_wh = "WH-US-LAX";
  ship_by = ship_by;
  items = record { sku = sku; quantity = pos 1; price = amount } ∷ [];
  buyer_cancellation_requested = cancels;
}

abbrev seeded_balance : String → String → ℤ → InventoryBalance
seeded_balance warehouse sku available = record {
  warehouse_id = warehouse;
  sku = sku;
  available = available;
  reserved = pos 0;
  inbound = pos 0;
}

abbrev seeded_lane : String → ℕ → TransferLane
seeded_lane from hours = record {
  from_warehouse = from;
  to_warehouse = "WH-US-LAX";
  estimated_hours = hours;
  estimated_arrival = 0;
}

abbrev pub new_seeded : ℕ → Service
new_seeded now =
    let at = to_second now in
    record {
      orders =
          (
            "TTS-20260801-1001",
            seeded_order "TTS-20260801-1001" "SKU-BLACK-M-01" (pos 12999) (at + 8 * hour) false,
          )
          ∷ (
            "TTS-20260801-1002",
            seeded_order "TTS-20260801-1002" "SKU-RED-L-02" (pos 5990) (at + 20 * hour) true,
          )
          ∷ (
            "TTS-20260801-1003",
            seeded_order "TTS-20260801-1003" "SKU-BLUE-S-03" (pos 8900) (at + 6 * hour) false,
          )
          ∷ [];
      inventory =
          (
            inventory_key "WH-US-LAX" "SKU-BLACK-M-01",
            seeded_balance "WH-US-LAX" "SKU-BLACK-M-01" (pos 0),
          )
          ∷ (
            inventory_key "WH-US-SFO" "SKU-BLACK-M-01",
            seeded_balance "WH-US-SFO" "SKU-BLACK-M-01" (pos 18),
          )
          ∷ (
            inventory_key "WH-US-LAX" "SKU-RED-L-02",
            seeded_balance "WH-US-LAX" "SKU-RED-L-02" (pos 6),
          )
          ∷ (
            inventory_key "WH-US-LAX" "SKU-BLUE-S-03",
            seeded_balance "WH-US-LAX" "SKU-BLUE-S-03" (pos 0),
          )
          ∷ (
            inventory_key "WH-US-BOS" "SKU-BLUE-S-03",
            seeded_balance "WH-US-BOS" "SKU-BLUE-S-03" (pos 12),
          )
          ∷ [];
      transfer_lanes = seeded_lane "WH-US-SFO" 6 ∷ seeded_lane "WH-US-BOS" 12 ∷ [];
      statements =
          (
            "STMT-2026-31",
            record {
              id = "STMT-2026-31";
              expected_amount = pos 11847;
              paid_amount = pos 10695;
              currency = "USD";
              status = "difference_detected";
            },
          )
          ∷ [];
      transfers = [];
      warehouse_changes = [];
      refunds = [];
      reconciliations = [];
      idempotency = [];
    }
