-- ===== src/Crossborder/State.antt =====
-- projects/crossborder/internal/service/service.go: the state. A method under the mutex is a function
-- from the service to the new service and its result; the clock is its argument. The idempotency map
-- holds values of any type, here one constructor for each, and a failed type assertion is `panic`.
use ecommerce_ops_agent.Base.{ℕ, String, ◌<>◌, List, Option, none, some, Result, ok, err}
use ecommerce_ops_agent.Base.Int.{pos}
use ecommerce_ops_agent.Base.Dict.{Dict}
use ecommerce_ops_agent.Crossborder.Domain.{
  Order, InventoryBalance, TransferLane, InventoryTransfer, FulfillmentWarehouseChange, Refund,
  SettlementStatement, ReconciliationCase,
}

pub data Error : Type 0 where
  not_found invalid_transition insufficient_stock idempotency_key panic : Error

pub data Cached : Type 0 where
  transferred : InventoryTransfer → Cached
  changed : FulfillmentWarehouseChange → Cached
  refunded : Refund → Cached
  reconciled : ReconciliationCase → Cached

pub record Service : Type 0 where
  pub orders : Dict String Order
  pub inventory : Dict String InventoryBalance
  pub transfer_lanes : List TransferLane
  pub statements : Dict String SettlementStatement
  pub transfers : Dict String InventoryTransfer
  pub warehouse_changes : Dict String FulfillmentWarehouseChange
  pub refunds : Dict String Refund
  pub reconciliations : Dict String ReconciliationCase
  pub idempotency : Dict String Cached

abbrev pub hour : ℕ
hour = 3600000000000

abbrev pub or_fail {ℓ} : {A : Type ℓ} → Option A → Error → Result Error A
or_fail none e = err e
or_fail (some a) e = ok a

abbrev pub inventory_key : String → String → String
inventory_key warehouse sku = warehouse <> ("|" <> sku)

-- What a read of a missing key gives.
abbrev pub balance_or_zero : Option InventoryBalance → InventoryBalance
balance_or_zero (some b) = b
balance_or_zero none = record {
  warehouse_id = "";
  sku = "";
  available = pos 0;
  reserved = pos 0;
  inbound = pos 0;
}
