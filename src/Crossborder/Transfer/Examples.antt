-- ===== src/Crossborder/Transfer/Examples.antt =====
-- `CreateTransfer` on the seeded service.
use text.Mathlib.TextEquality.{eq_iff}
use ecommerce_ops_agent.Base.{String, ◌≡◌, refl, ◌≢◌, false, ok, err, arith, string_eq}
use ecommerce_ops_agent.Base.Int.{ℤ, pos}
use ecommerce_ops_agent.Base.Dict.{lookup}
use ecommerce_ops_agent.Crossborder.Domain.{InventoryTransfer}
use ecommerce_ops_agent.Crossborder.State.{insufficient_stock}
use ecommerce_ops_agent.Base.Decimal.{decimal}
use ecommerce_ops_agent.Crossborder.Decimal.{four_digits}
use ecommerce_ops_agent.Crossborder.Seeded.{new_seeded}
use ecommerce_ops_agent.Crossborder.Seeded.Facts.{seeded-IsStocked}
use ecommerce_ops_agent.Crossborder.Transfer.{
  TransferRequest, create_transfer, find_lane, transfer_record, new_transfer, commit_transfer,
}
use ecommerce_ops_agent.Crossborder.Transfer.Ledger.{IsStocked, create_transfer-IsStocked}

abbrev pub request : ℤ → TransferRequest
request quantity = record {
  sku = "SKU-BLACK-M-01";
  from_warehouse = "WH-US-SFO";
  to_warehouse = "WH-US-LAX";
  key = "k1";
  quantity = quantity;
  dry_run = false;
}

pub made : InventoryTransfer
made = record {
  id = "TR-0001";
  sku = "SKU-BLACK-M-01";
  from_warehouse = "WH-US-SFO";
  to_warehouse = "WH-US-LAX";
  quantity = pos 5;
  status = "in_transit";
  estimated_arrival = 21600000000007;
  created_at = 7;
}

pub sfo_not_lax : ◌≢◌ {A = String} "WH-US-SFO" "WH-US-LAX"
sfo_not_lax = ground (arith, eq_iff "WH-US-SFO" "WH-US-LAX")

pub moves_example : (create_transfer 7 (request (pos 5)) (new_seeded 0)).1 ≡ ok made
unfolding create_transfer new_transfer commit_transfer find_lane transfer_record lookup string_eq
    four_digits decimal made
moves_example = refl

create_transfer-IsStocked_example :
    IsStocked (create_transfer 7 (request (pos 5)) (new_seeded 0)).0.inventory
create_transfer-IsStocked_example =
    create_transfer-IsStocked 7 (request (pos 5)) (new_seeded 0) (seeded-IsStocked 0)

too_many : (create_transfer 7 (request (pos 19)) (new_seeded 0)).1 ≡ err insufficient_stock
unfolding create_transfer new_transfer commit_transfer find_lane lookup string_eq
too_many = refl
