-- ===== src/Crossborder/Domain.antt =====
-- projects/crossborder/internal/domain/models.go. Money is in cents, a `time.Time` in nanoseconds.
use ecommerce_ops_agent.Base.{ℕ, String, List, Bool}
use ecommerce_ops_agent.Base.Int.{ℤ}

abbrev pub order_awaiting_shipment : String
order_awaiting_shipment = "awaiting_shipment"

abbrev pub order_partially_shipped : String
order_partially_shipped = "partially_shipped"

abbrev pub order_cancelled : String
order_cancelled = "cancelled"

pub record OrderItem : Type 0 where
  pub sku : String
  pub quantity : ℤ
  pub price : ℤ

pub record Order : Type 0 where
  pub id : String
  pub shop_id : String
  pub market : String
  pub currency : String
  pub amount : ℤ
  pub status : String
  pub fulfillment_wh : String
  pub ship_by : ℕ
  pub items : List OrderItem
  pub buyer_cancellation_requested : Bool

pub record InventoryBalance : Type 0 where
  pub warehouse_id : String
  pub sku : String
  pub available : ℤ
  pub reserved : ℤ
  pub inbound : ℤ

pub record TransferLane : Type 0 where
  pub from_warehouse : String
  pub to_warehouse : String
  pub estimated_hours : ℕ
  pub estimated_arrival : ℕ

pub record ShippingOption : Type 0 where
  pub warehouse_id : String
  pub provider : String
  pub service : String
  pub cost : ℤ
  pub currency : String
  pub delivery_days : ℕ
  pub sla_eligible : Bool

pub record InventoryTransfer : Type 0 where
  pub id : String
  pub sku : String
  pub from_warehouse : String
  pub to_warehouse : String
  pub quantity : ℤ
  pub status : String
  pub estimated_arrival : ℕ
  pub created_at : ℕ

pub record FulfillmentWarehouseChange : Type 0 where
  pub id : String
  pub order_id : String
  pub from_warehouse : String
  pub to_warehouse : String
  pub reason : String
  pub status : String
  pub created_at : ℕ

pub record Refund : Type 0 where
  pub id : String
  pub order_id : String
  pub amount : ℤ
  pub currency : String
  pub reason : String
  pub status : String
  pub created_at : ℕ

pub record SettlementStatement : Type 0 where
  pub id : String
  pub expected_amount : ℤ
  pub paid_amount : ℤ
  pub currency : String
  pub status : String

pub record ReconciliationCase : Type 0 where
  pub id : String
  pub statement_id : String
  pub difference : ℤ
  pub reason : String
  pub status : String
  pub created_at : ℕ
