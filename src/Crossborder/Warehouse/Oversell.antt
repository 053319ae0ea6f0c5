-- ===== src/Crossborder/Warehouse/Oversell.antt =====
-- When `ChangeFulfillmentWarehouse` keeps the stock from going below zero, and when it does not: its
-- first loop holds each item alone against the stock, its second takes them one after the other.
use text.Mathlib.TextLemmas.{append_cancel_left}
use ecommerce_ops_agent.Base.{
  ℕ, ◌≡◌, refl, ap, ◌∙◌, ◌≢◌, String, List, [], ◌∷◌, All, true, Option, none, some, arith,
  string_eq,
}
use ecommerce_ops_agent.Base.Int.{pos, ◌<ℤ◌, ◌≤ℤ◌, ◌+ℤ◌, ◌-ℤ◌, int_laws, -ℤ_parts}
use ecommerce_ops_agent.Base.Dict.{
  Dict, lookup, insert, lookup-insert_self, lookup-insert, lookup-insert_ne,
}
use ecommerce_ops_agent.Crossborder.Domain.{InventoryBalance, OrderItem, Order}
use ecommerce_ops_agent.Crossborder.State.{Service, inventory_key, balance_or_zero}
use ecommerce_ops_agent.Crossborder.Warehouse.{
  ChangeRequest, change_fulfillment_warehouse, commit_change, all_covered, covers, reserve_items,
  take_item,
}
use ecommerce_ops_agent.Crossborder.Transfer.Ledger.{IsStocked}
use ecommerce_ops_agent.Crossborder.Warehouse.Stock.{Accepted, change_cases, change_committed}

-- No article stands on two lines.
abbrev pub DistinctSkus : List OrderItem → Type 0
DistinctSkus [] = Unit
DistinctSkus (item ∷ items) = All (λ other. other.sku ≢ item.sku) items × DistinctSkus items

articles_apart : (w a b : String) → a ≢ b → inventory_key w a ≢ inventory_key w b
articles_apart w a b h e = h (append_cancel_left "|" a b (append_cancel_left w _ _ e))

all_covered-insert :
    (w sku : String) (b : InventoryBalance) (items : List OrderItem)
    (d : Dict String InventoryBalance)
    → All (λ other. other.sku ≢ sku) items
    → all_covered w items (insert (inventory_key w sku) b d) ≡ all_covered w items d
unfolding all_covered
all_covered-insert w sku b [] d h = refl
all_covered-insert w sku b (item ∷ items) d h = rw (
  lookup-insert_ne (inventory_key w item.sku) (inventory_key w sku) b d
      (articles_apart w item.sku sku h.0),
  all_covered-insert w sku b items d h.1,
)

taken-IsStocked :
    (key : String) (item : OrderItem) (o : Option InventoryBalance)
    (d : Dict String InventoryBalance)
    → lookup key d ≡ o
    → covers o item ≡ true
    → IsStocked d
    → IsStocked (insert key (take_item item (balance_or_zero o)) d)
taken-IsStocked key item none d e c h k b found = cc
taken-IsStocked key item (some before) d e c h k b found = ground (
  arith,
  lookup-insert k key (take_item item before) d,
  -ℤ_parts before.available item.quantity,
  h k b,
)

reserve_items-IsStocked :
    (w : String) (items : List OrderItem) (d : Dict String InventoryBalance)
    → DistinctSkus items
    → all_covered w items d ≡ true
    → IsStocked d
    → IsStocked (reserve_items w items d)
unfolding reserve_items all_covered
reserve_items-IsStocked w [] d distinct c h = h
reserve_items-IsStocked w (item ∷ items) d distinct c h =
    reserve_items-IsStocked w items _ distinct.1
      (all_covered-insert w item.sku _ items d distinct.0 ∙ ground arith)
      (taken-IsStocked (inventory_key w item.sku) item _ d refl (ground arith) h)

-- If no order in the store names an article twice and no balance has less than nothing available,
-- then none has after `ChangeFulfillmentWarehouse`, on any branch.
pub change-IsStocked :
    (now : ℕ) (req : ChangeRequest) (s : Service)
    → ((k : String) (order : Order) → lookup k s.orders ≡ some order → DistinctSkus order.items)
    → IsStocked s.inventory
    → IsStocked (change_fulfillment_warehouse now req s).0.inventory
unfolding commit_change
change-IsStocked now req s distinct h =
    change_cases (λ t. IsStocked t.inventory) now req s h
      λ order a.
        reserve_items-IsStocked req.to_warehouse order.items s.inventory
          (distinct req.order_id order a.found) a.covered h

twice_taken :
    (w : String) (item again : OrderItem) (b : InventoryBalance) (d : Dict String InventoryBalance)
    → again.sku ≡ item.sku
    → lookup (inventory_key w item.sku) d ≡ some b
    → lookup (inventory_key w item.sku) (reserve_items w (item ∷ again ∷ []) d)
      ≡ some (take_item again (take_item item b))
unfolding reserve_items
twice_taken w item again b d same held =
    rw (same, held, lookup-insert_self (inventory_key w item.sku) (take_item item b) d)
      (lookup-insert_self (inventory_key w item.sku) (take_item again (take_item item b)) _)

pub change_oversells :
    (now : ℕ) (req : ChangeRequest) (s : Service) (order : Order) (item again : OrderItem)
    (b : InventoryBalance)
    → Accepted req s order
    → order.items ≡ item ∷ again ∷ []
    → again.sku ≡ item.sku
    → lookup (inventory_key req.to_warehouse item.sku) s.inventory ≡ some b
    → b.available <ℤ item.quantity +ℤ again.quantity
    → ¬ IsStocked (change_fulfillment_warehouse now req s).0.inventory
unfolding commit_change
change_oversells now req s order item again b a lines same held short stocked =
    absurd (omega (int_laws, after))
  where
    goes :
        reserve_items req.to_warehouse order.items s.inventory
        ≡ reserve_items req.to_warehouse (item ∷ again ∷ []) s.inventory
    goes = ap (λ l. reserve_items req.to_warehouse l s.inventory) lines

    after : pos 0 ≤ℤ (b.available -ℤ item.quantity) -ℤ again.quantity
    after =
        rw (ap (λ p. p.0) (change_committed now req s order a)) at stocked
          (inventory_key req.to_warehouse item.sku) (take_item again (take_item item b))
          (rw goes (twice_taken req.to_warehouse item again b s.inventory same held))
