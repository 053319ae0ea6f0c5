-- ===== src/Crossborder/Transfer.antt =====
-- `CreateTransfer` of projects/crossborder/internal/service/service.go.
pub mod Cases
pub mod Ledger
pub mod Replay
pub mod Examples
use ecommerce_ops_agent.Base.{
  ℕ, ◌+◌, ◌*◌, String, ◌<>◌, List, [], ◌∷◌, Bool, ◌&&◌, ◌||◌, Option, none, some, Result, ok, err,
  if◌then◌else◌, ◌==◌, string_eq, length,
}
use ecommerce_ops_agent.Base.Int.{ℤ, pos, ◌+ℤ◌, ◌-ℤ◌, leb_ℤ, ltb_ℤ}
use ecommerce_ops_agent.Base.Dict.{Dict, lookup, insert}
use ecommerce_ops_agent.Crossborder.Domain.{InventoryBalance, TransferLane, InventoryTransfer}
use ecommerce_ops_agent.Crossborder.Decimal.{four_digits}
use ecommerce_ops_agent.Crossborder.State.{
  Service, Error, not_found, invalid_transition, insufficient_stock, idempotency_key, panic, Cached,
  transferred, hour, inventory_key, balance_or_zero,
}

pub find_lane : String → String → List TransferLane → Option TransferLane
find_lane from to [] = none
find_lane from to (lane ∷ lanes) =
    if lane.from_warehouse == from && lane.to_warehouse == to
    then some lane
    else find_lane from to lanes

pub record TransferRequest : Type 0 where
  pub sku : String
  pub from_warehouse : String
  pub to_warehouse : String
  pub key : String
  pub quantity : ℤ
  pub dry_run : Bool

abbrev pub as_transfer : Cached → Result Error InventoryTransfer
as_transfer (transferred t) = ok t
as_transfer _ = err panic

pub transfer_record : ℕ → TransferRequest → TransferLane → String → String → ℕ → InventoryTransfer
transfer_record now req lane id status created_at = record {
  id = id;
  sku = req.sku;
  from_warehouse = req.from_warehouse;
  to_warehouse = req.to_warehouse;
  quantity = req.quantity;
  status = status;
  estimated_arrival = now + lane.estimated_hours * hour;
  created_at = created_at;
}

-- Both balances are read before either is written.
pub moved_stock :
    TransferRequest → InventoryBalance → Dict String InventoryBalance → Dict String InventoryBalance
moved_stock req from inventory =
    let to_key = inventory_key req.to_warehouse req.sku in
    let to = balance_or_zero (lookup to_key inventory) in
    insert to_key
      (record to {
        warehouse_id = req.to_warehouse;
        sku = req.sku;
        inbound = to.inbound +ℤ req.quantity;
      })
      (insert (inventory_key req.from_warehouse req.sku)
        (record from { available = from.available -ℤ req.quantity }) inventory)

abbrev pub transfer_cache_key : String → String
transfer_cache_key key = "transfer:" <> key

unfoldable pub commit_transfer :
    ℕ
    → TransferRequest
    → TransferLane
    → InventoryBalance
    → Service
    → Service × Result Error InventoryTransfer
unfolding transfer_record moved_stock
commit_transfer now req lane from s =
    let id = "TR-" <> four_digits (length s.transfers + 1) in
    let transfer = transfer_record now req lane id "in_transit" now in
    (
      record s {
        inventory = moved_stock req from s.inventory;
        transfers = insert id transfer s.transfers;
        idempotency = insert (transfer_cache_key req.key) (transferred transfer) s.idempotency;
      },
      ok transfer,
    )

-- The checks behind the idempotency map.
unfoldable pub new_transfer :
    ℕ → TransferRequest → Service → Service × Result Error InventoryTransfer
new_transfer now req s = elim (find_lane req.from_warehouse req.to_warehouse s.transfer_lanes) [
  | none ↦ (s, err invalid_transition)
  | some lane ↦ elim (lookup (inventory_key req.from_warehouse req.sku) s.inventory) [
    | none ↦ (s, err not_found)
    | some from ↦
        if ltb_ℤ from.available req.quantity
        then (s, err insufficient_stock)
        else if req.dry_run
        then (s, ok (transfer_record now req lane "" "validated" 0))
        else commit_transfer now req lane from s
  ]
]

unfoldable pub create_transfer :
    ℕ → TransferRequest → Service → Service × Result Error InventoryTransfer
create_transfer now req s =
    if req.key == ""
    then (s, err idempotency_key)
    else if leb_ℤ req.quantity (pos 0) || req.from_warehouse == req.to_warehouse
    then (s, err invalid_transition)
    else elim (lookup (transfer_cache_key req.key) s.idempotency) [
      | some cached ↦ (s, as_transfer cached)
      | none ↦ new_transfer now req s
    ]
