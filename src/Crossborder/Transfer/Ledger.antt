-- ===== src/Crossborder/Transfer/Ledger.antt =====
-- Stock under `CreateTransfer`: nothing is lost, nothing goes below zero, and what moves where.
use text.Mathlib.TextLemmas.{append_cancel_right}
use ecommerce_ops_agent.Base.{
  ℕ, ◌<>◌, ◌≡◌, refl, sym, ap, ◌≢◌, String, Option, none, some, arith, string_eq,
}
use ecommerce_ops_agent.Base.Int.{ℤ, pos, pos_part, neg_part, ◌+ℤ◌, ◌-ℤ◌, ◌≤ℤ◌, int_laws, -ℤ_parts}
use ecommerce_ops_agent.Base.Dict.{
  Dict, lookup, insert, total, measure, total-insert, lookup-insert, lookup-insert_ne,
}
use ecommerce_ops_agent.Crossborder.Domain.{InventoryBalance}
use ecommerce_ops_agent.Crossborder.State.{Service, inventory_key, balance_or_zero}
use ecommerce_ops_agent.Crossborder.Transfer.{
  TransferRequest, create_transfer, commit_transfer, moved_stock,
}
use ecommerce_ops_agent.Crossborder.Transfer.Cases.{create_transfer_cases}

-- All units that a balance stands for, wherever they are.
abbrev pub units : InventoryBalance → ℤ
units b = b.available +ℤ b.reserved +ℤ b.inbound

abbrev pub all_units : Service → ℤ
all_units s = total units s.inventory

-- Two warehouses never share the key of an article.
pub keys_apart : (a b sku : String) → a ≢ b → inventory_key a sku ≢ inventory_key b sku
keys_apart a b sku h e = h (append_cancel_right a b ("|" <> sku) e)

pub measure-units : (o : Option InventoryBalance) → measure units o ≡ units (balance_or_zero o)
unfolding ◌+ℤ◌
measure-units none = refl
measure-units (some b) = refl

moved_stock-total :
    (req : TransferRequest) (from : InventoryBalance) (d : Dict String InventoryBalance)
    → req.from_warehouse ≢ req.to_warehouse
    → lookup (inventory_key req.from_warehouse req.sku) d ≡ some from
    → total units (moved_stock req from d) ≡ total units d
unfolding moved_stock
moved_stock-total req from d apart held =
    omega (int_laws, ap pos_part second, ap neg_part second, ap pos_part first, ap neg_part first)
  where
    from_key : String
    from_key = inventory_key req.from_warehouse req.sku

    to_key : String
    to_key = inventory_key req.to_warehouse req.sku

    less : InventoryBalance
    less = record from { available = from.available -ℤ req.quantity }

    to : InventoryBalance
    to = balance_or_zero (lookup to_key d)

    more : InventoryBalance
    more = record to {
      warehouse_id = req.to_warehouse;
      sku = req.sku;
      inbound = to.inbound +ℤ req.quantity;
    }

    first : total units (insert from_key less d) +ℤ units from ≡ total units d +ℤ units less
    first = rw held at (total-insert units from_key less d)

    second :
        total units (insert to_key more (insert from_key less d)) +ℤ units to
        ≡ total units (insert from_key less d) +ℤ units more
    second =
        rw
          (
            lookup-insert_ne to_key from_key less d (λ e. keys_apart _ _ req.sku apart (sym e)),
            measure-units,
          )
          at (total-insert units to_key more (insert from_key less d))

-- On every branch, errors, dry runs and replays included, `CreateTransfer` keeps the number of units
-- in the whole inventory (available, reserved and inbound together).
pub create_transfer-all_units :
    (now : ℕ) (req : TransferRequest) (s : Service)
    → all_units (create_transfer now req s).0 ≡ all_units s
unfolding commit_transfer
create_transfer-all_units now req s =
    create_transfer_cases (λ t. all_units t ≡ all_units s) now req s refl
      λ lane from h. moved_stock-total req from s.inventory h.apart h.held

-- No balance has less than nothing to give.
abbrev pub IsStocked : Dict String InventoryBalance → Type 0
IsStocked d = (k : String) (b : InventoryBalance) → lookup k d ≡ some b → pos 0 ≤ℤ b.available

balance_or_zero-stocked :
    (k : String) (d : Dict String InventoryBalance)
    → IsStocked d
    → pos 0 ≤ℤ (balance_or_zero (lookup k d)).available
balance_or_zero-stocked k d h = go (lookup k d) refl
  where
    go : (o : Option InventoryBalance) → lookup k d ≡ o → pos 0 ≤ℤ (balance_or_zero o).available
    go none e = omega arith
    go (some b) e = h k b e

moved_stock-IsStocked :
    (req : TransferRequest) (from : InventoryBalance) (d : Dict String InventoryBalance)
    → req.quantity ≤ℤ from.available
    → IsStocked d
    → IsStocked (moved_stock req from d)
unfolding moved_stock
moved_stock-IsStocked req from d enough h k b e = ground (
  arith,
  lookup-insert k (inventory_key req.to_warehouse req.sku)
      (record (balance_or_zero (lookup (inventory_key req.to_warehouse req.sku) d)) {
        warehouse_id = req.to_warehouse;
        sku = req.sku;
        inbound =
            (balance_or_zero (lookup (inventory_key req.to_warehouse req.sku) d)).inbound
            +ℤ req.quantity;
      })
      (insert (inventory_key req.from_warehouse req.sku)
        (record from { available = from.available -ℤ req.quantity }) d),
  lookup-insert k (inventory_key req.from_warehouse req.sku)
      (record from { available = from.available -ℤ req.quantity }) d,
  balance_or_zero-stocked (inventory_key req.to_warehouse req.sku) d h,
  -ℤ_parts from.available req.quantity,
  h k b,
)

-- If no balance has less than nothing available, then none has after `CreateTransfer`, on any
-- branch.
pub create_transfer-IsStocked :
    (now : ℕ) (req : TransferRequest) (s : Service)
    → IsStocked s.inventory
    → IsStocked (create_transfer now req s).0.inventory
unfolding commit_transfer
create_transfer-IsStocked now req s h =
    create_transfer_cases (λ t. IsStocked t.inventory) now req s h
      λ lane from a. moved_stock-IsStocked req from s.inventory a.enough h
