-- ===== src/Crossborder/Warehouse/Stock.antt =====
-- Stock under `ChangeFulfillmentWarehouse`.
use ecommerce_ops_agent.Base.{
  ℕ, ◌≡◌, ◌≢◌, refl, ap, String, ◌⊎◌, inl, inr, List, [], ◌∷◌, true, false, none, some, err, arith,
  string_eq, Bool-cases, Option-cases, ◌==◌,
}
use ecommerce_ops_agent.Base.Int.{pos_part, neg_part, ◌+ℤ◌, int_laws}
use ecommerce_ops_agent.Base.Dict.{Dict, lookup, insert, total, total-insert}
use ecommerce_ops_agent.Crossborder.Domain.{InventoryBalance, OrderItem, Order}
use ecommerce_ops_agent.Crossborder.State.{Service, Error, inventory_key, balance_or_zero}
use ecommerce_ops_agent.Crossborder.Warehouse.{
  ChangeRequest, change_fulfillment_warehouse, new_change, commit_change, may_change, all_covered,
  reserve_items, take_item, change_cache_key,
}
use ecommerce_ops_agent.Crossborder.Transfer.Ledger.{units, all_units, measure-units}

reserve_items-total :
    (w : String) (items : List OrderItem) (d : Dict String InventoryBalance)
    → total units (reserve_items w items d) ≡ total units d
unfolding reserve_items
reserve_items-total w [] d = refl
reserve_items-total w (item ∷ items) d = omega (
  int_laws,
  ap pos_part (reserve_items-total w items (insert key after d)),
  ap neg_part (reserve_items-total w items (insert key after d)),
  ap pos_part written,
  ap neg_part written,
)
  where
    key : String
    key = inventory_key w item.sku

    before : InventoryBalance
    before = balance_or_zero (lookup key d)

    after : InventoryBalance
    after = take_item item before

    written : total units (insert key after d) +ℤ units before ≡ total units d +ℤ units after
    written = rw measure-units at (total-insert units key after d)

-- A failed or dry request leaves the service as it was.
pub change-unchanged :
    (now : ℕ) (req : ChangeRequest) (s : Service) (e : Error)
    → ((change_fulfillment_warehouse now req s).1 ≡ err e) ⊎ (req.dry_run ≡ true)
    → (change_fulfillment_warehouse now req s).0 ≡ s
unfolding change_fulfillment_warehouse new_change commit_change
change-unchanged now req s e h = ground arith

-- What holds where a change is committed.
pub record Accepted (req : ChangeRequest) (s : Service) (order : Order) : Type 0 where
  pub keyed : req.key ≢ ""
  pub fresh : lookup (change_cache_key req.key) s.idempotency ≡ none
  pub found : lookup req.order_id s.orders ≡ some order
  pub allowed : may_change req order ≡ true
  pub covered : all_covered req.to_warehouse order.items s.inventory ≡ true
  pub wet : req.dry_run ≡ false

pub change_cases {ℓ} :
    (P : Service → Type ℓ) (now : ℕ) (req : ChangeRequest) (s : Service)
    → P s
    → ((order : Order) → Accepted req s order → P (commit_change now req order s).0)
    → P (change_fulfillment_warehouse now req s).0
unfolding change_fulfillment_warehouse new_change commit_change
change_cases P now req s same commits = elim (Bool-cases (req.key == "")) [
  | inl e ↦ rw e same
  | inr keyed ↦ elim (Option-cases (lookup (change_cache_key req.key) s.idempotency)) [
    | inr (c, e) ↦ rw (keyed, e, change_fulfillment_warehouse) same
    | inl fresh ↦ elim (Option-cases (lookup req.order_id s.orders)) [
      | inl e ↦ rw (keyed, fresh, e, change_fulfillment_warehouse, new_change) same
      | inr (order, found) ↦ elim (Bool-cases (may_change req order)) [
        | inr e ↦ rw (keyed, fresh, found, e, change_fulfillment_warehouse, new_change) same
        | inl allowed ↦ elim (Bool-cases (all_covered req.to_warehouse order.items s.inventory)) [
          | inr e ↦
              rw (keyed, fresh, found, allowed, e, change_fulfillment_warehouse, new_change) same
          | inl covered ↦ elim (Bool-cases req.dry_run) [
            | inl e ↦
                rw
                  (
                    keyed, fresh, found, allowed, covered, e, change_fulfillment_warehouse,
                    new_change,
                  )
                  same
            | inr wet ↦
                rw
                  (
                    keyed, fresh, found, allowed, covered, wet, change_fulfillment_warehouse,
                    new_change,
                  )
                  (commits order (record {
                    keyed = ground arith;
                    fresh = fresh;
                    found = found;
                    allowed = allowed;
                    covered = covered;
                    wet = wet;
                  }))
          ]
        ]
      ]
    ]
  ]
]

pub change_committed :
    (now : ℕ) (req : ChangeRequest) (s : Service) (order : Order)
    → Accepted req s order
    → change_fulfillment_warehouse now req s ≡ commit_change now req order s
unfolding change_fulfillment_warehouse new_change
change_committed now req s order a = ground arith

-- `ChangeFulfillmentWarehouse` only moves units from available to reserved: on every branch the
-- number of units in the whole inventory stays.
pub change-all_units :
    (now : ℕ) (req : ChangeRequest) (s : Service)
    → all_units (change_fulfillment_warehouse now req s).0 ≡ all_units s
unfolding commit_change
change-all_units now req s =
    change_cases (λ t. all_units t ≡ all_units s) now req s refl
      λ order h. reserve_items-total req.to_warehouse order.items s.inventory
