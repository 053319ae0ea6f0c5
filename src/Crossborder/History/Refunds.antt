-- ===== src/Crossborder/History/Refunds.antt =====
-- A cancelled order stays cancelled, so an order is refunded once.
use ecommerce_ops_agent.Base.{
  ℕ, true, ◌≡◌, refl, sym, subst, ◌∙◌, ◌≢◌, String, List, [], ◌∷◌, none, some, err, arith,
  string_eq,
}
use ecommerce_ops_agent.Base.Dict.{Dict, lookup, insert, lookup-insert}
use ecommerce_ops_agent.Crossborder.Domain.{Order, order_cancelled}
use ecommerce_ops_agent.Crossborder.State.{Service, invalid_transition}
use ecommerce_ops_agent.Crossborder.Transfer.{commit_transfer}
use ecommerce_ops_agent.Crossborder.Transfer.Cases.{create_transfer_cases}
use ecommerce_ops_agent.Crossborder.Warehouse.{ChangeRequest, commit_change, may_change}
use ecommerce_ops_agent.Crossborder.Warehouse.Stock.{change_cases}
use ecommerce_ops_agent.Crossborder.Refund.{
  RefundRequest, approve_refund, commit_refund, new_refund, may_refund, refund_cache_key,
}
use ecommerce_ops_agent.Crossborder.Refund.Once.{
  Accepted, refund_cases, approve_refund_grants, cancelled_not_awaiting, cancelled_not_partial,
}
use ecommerce_ops_agent.Crossborder.Reconciliation.{commit_case}
use ecommerce_ops_agent.Crossborder.Reconciliation.Cases.{case_cases}
use ecommerce_ops_agent.Crossborder.History.{
  Request, transfer, change, refund, reconcile, step, run,
}

-- Each order stands under its own identifier.
abbrev pub KeyedById : Dict String Order → Type 0
KeyedById d = (k : String) (o : Order) → lookup k d ≡ some o → o.id ≡ k

abbrev pub IsCancelled : String → Dict String Order → Type 0
IsCancelled id d = (o : Order) × (lookup id d ≡ some o) × (o.status ≡ order_cancelled)

-- What every operation does to the orders: it may replace one by another of the same identifier, and
-- never one that is cancelled by one that is not.
abbrev Evolves : Dict String Order → Dict String Order → Type 0
Evolves d e =
    (KeyedById d → KeyedById e)
    × ((id : String) → KeyedById d → IsCancelled id d → IsCancelled id e)

Evolves-refl : (d : Dict String Order) → Evolves d d
Evolves-refl d = (λ h. h, λ id h c. c)

insert-KeyedById : (o : Order) (d : Dict String Order) → KeyedById d → KeyedById (insert o.id o d)
insert-KeyedById o d h k p found = ground (arith, lookup-insert k o.id o d, h k p)

insert-IsCancelled :
    (o : Order) (id : String) (d : Dict String Order)
    → o.status ≡ order_cancelled
    → IsCancelled id d
    → IsCancelled id (insert o.id o d)
insert-IsCancelled o id d c (old, found, was) = elim (string_eq.dec id o.id) [
  | yes same ↦ (o, ground (arith, lookup-insert id o.id o d), c)
  | no other ↦ (old, ground (arith, lookup-insert id o.id o d), was)
]

insert_live :
    (old new : Order) (at id : String) (d : Dict String Order)
    → lookup at d ≡ some old
    → old.status ≢ order_cancelled
    → new.id ≡ old.id
    → KeyedById d
    → IsCancelled id d
    → IsCancelled id (insert new.id new d)
insert_live old new at id d found live same keyed (o, held, was) =
    (o, ground (arith, lookup-insert id new.id new d, keyed at old, keyed id o), was)

may_change-live :
    (req : ChangeRequest) (o : Order) → may_change req o ≡ true → o.status ≢ order_cancelled
unfolding may_change
may_change-live req o h c = ground (arith, cancelled_not_awaiting, cancelled_not_partial)

step-Evolves : (s : Service) (r : ℕ × Request) → Evolves s.orders (step s r).orders
unfolding step commit_transfer commit_change commit_refund commit_case
step-Evolves s (now, transfer req) =
    create_transfer_cases (λ t. Evolves s.orders t.orders) now req s (Evolves-refl s.orders)
      (λ lane from a. Evolves-refl s.orders)
step-Evolves s (now, change req) =
    change_cases (λ t. Evolves s.orders t.orders) now req s (Evolves-refl s.orders)
      λ o a. (
        insert-KeyedById (record o { fulfillment_wh = req.to_warehouse }) s.orders,
        λ id h c.
            insert_live o (record o { fulfillment_wh = req.to_warehouse }) req.order_id id s.orders
              a.found (may_change-live req o a.allowed) refl h c,
      )
step-Evolves s (now, refund req) =
    refund_cases (λ t. Evolves s.orders t.orders) now req s (Evolves-refl s.orders)
      λ o a. (
        insert-KeyedById (record o { status = order_cancelled }) s.orders,
        λ id h c. insert-IsCancelled (record o { status = order_cancelled }) id s.orders refl c,
      )
step-Evolves s (now, reconcile req) =
    case_cases (λ t. Evolves s.orders t.orders) now req s (Evolves-refl s.orders)
      (λ statement a. Evolves-refl s.orders)

-- In a store that keeps each order under its own identifier, no history of requests takes a
-- cancelled order out of that state.
pub run-IsCancelled :
    (s : Service) (rs : List (ℕ × Request)) (id : String)
    → KeyedById s.orders
    → IsCancelled id s.orders
    → IsCancelled id (run s rs).orders
unfolding run
run-IsCancelled s [] id h c = c
run-IsCancelled s (r ∷ rs) id h c =
    let e = step-Evolves s r in run-IsCancelled (step s r) rs id (e.0 h) (e.1 id h c)

cancelled_refused :
    (now : ℕ) (req : RefundRequest) (s : Service)
    → req.key ≢ ""
    → lookup (refund_cache_key req.key) s.idempotency ≡ none
    → IsCancelled req.order_id s.orders
    → approve_refund now req s ≡ (s, err invalid_transition)
unfolding approve_refund new_refund may_refund
cancelled_refused now req s keyed fresh (o, found, was) = ground (arith, cancelled_not_awaiting)

-- In a store that keeps each order under its own identifier: once a refund for an order is granted,
-- then after any history of further requests a refund for that order, under a key that is not empty
-- and not yet answered, is refused as an invalid transition and changes nothing.
pub refund_once :
    (now later : ℕ) (req again : RefundRequest) (s : Service) (o : Order) (rs : List (ℕ × Request))
    → KeyedById s.orders
    → Accepted req s o
    → again.order_id ≡ req.order_id
    → again.key ≢ ""
    → lookup (refund_cache_key again.key) (run (approve_refund now req s).0 rs).idempotency ≡ none
    → let t = run (approve_refund now req s).0 rs in
      approve_refund later again t ≡ (t, err invalid_transition)
unfolding step
refund_once now later req again s o rs h a same keyed fresh =
    let granted = approve_refund_grants now req s o a in
    let first = step-Evolves s (now, refund req) in
    cancelled_refused later again (run (approve_refund now req s).0 rs) keyed fresh (
      subst (λ id. IsCancelled id (run (approve_refund now req s).0 rs).orders)
        (h req.order_id o a.found ∙ sym same)
        (run-IsCancelled (approve_refund now req s).0 rs o.id (first.0 h)
          (record o { status = order_cancelled }, granted.5, refl)))
