-- ===== src/Crossborder/Seeded/Facts.antt =====
-- What holds of the service of `NewSeeded`, projects/crossborder/internal/service/service.go.
use ecommerce_ops_agent.Base.{ℕ, ◌≡◌, String, some, arith, string_eq, ◌∷◌, [], List, length}
use ecommerce_ops_agent.Base.Dict.{lookup}
use ecommerce_ops_agent.Crossborder.Domain.{Order, OrderItem}
use ecommerce_ops_agent.Crossborder.Seeded.{new_seeded}
use ecommerce_ops_agent.Crossborder.Transfer.Ledger.{IsStocked}
use ecommerce_ops_agent.Crossborder.Warehouse.Oversell.{DistinctSkus}
use ecommerce_ops_agent.Crossborder.History.Refunds.{KeyedById}

pub seeded-IsStocked : (now : ℕ) → IsStocked (new_seeded now).inventory
unfolding lookup
seeded-IsStocked now k b e = ground arith

pub seeded-KeyedById : (now : ℕ) → KeyedById (new_seeded now).orders
unfolding lookup
seeded-KeyedById now k o e = ground arith

one_line : (items : List OrderItem) → length items ≡ 1 → DistinctSkus items
one_line [] h = cc
one_line (item ∷ []) h = (tt, tt)
one_line (item ∷ other ∷ items) h = absurd (omega (arith, h))

seeded_lines :
    (now : ℕ) (k : String) (order : Order)
    → lookup k (new_seeded now).orders ≡ some order
    → length order.items ≡ 1
unfolding lookup
seeded_lines now k order e = ground arith

pub seeded-DistinctSkus :
    (now : ℕ) (k : String) (order : Order)
    → lookup k (new_seeded now).orders ≡ some order
    → DistinctSkus order.items
seeded-DistinctSkus now k order e = one_line order.items (seeded_lines now k order e)
