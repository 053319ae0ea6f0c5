-- ===== src/Crossborder/Refund/Once.antt =====
-- What `ApproveRefund` grants, and that it grants it once for an order.
use text.Mathlib.TextEquality.{eq_iff}
use ecommerce_ops_agent.Base.{
  ℕ, ◌≡◌, refl, sym, subst, err, false, ◌≢◌, String, inl, inr, true, none, some, ok, arith,
  string_eq, Bool-cases, Option-cases, ◌==◌, ◌<>◌, ◌+◌, length,
}
use ecommerce_ops_agent.Base.Int.{pos, ◌≤ℤ◌, ◌<ℤ◌}
use ecommerce_ops_agent.Base.Dict.{lookup, lookup-insert_self}
use ecommerce_ops_agent.Crossborder.Domain.{
  Order, Refund, order_awaiting_shipment, order_cancelled, order_partially_shipped,
}
use ecommerce_ops_agent.Crossborder.Decimal.{four_digits}
use ecommerce_ops_agent.Crossborder.State.{Service, Error, refunded}
use ecommerce_ops_agent.Crossborder.Refund.{
  RefundRequest, approve_refund, new_refund, commit_refund, may_refund, refund_record,
  refund_cache_key,
}

pub cancelled_not_awaiting : ◌≢◌ {A = String} order_cancelled order_awaiting_shipment
cancelled_not_awaiting = ground (arith, eq_iff "cancelled" "awaiting_shipment")

pub cancelled_not_partial : ◌≢◌ {A = String} order_cancelled order_partially_shipped
cancelled_not_partial = ground (arith, eq_iff "cancelled" "partially_shipped")

-- What holds where a refund is committed.
pub record Accepted (req : RefundRequest) (s : Service) (order : Order) : Type 0 where
  pub keyed : req.key ≢ ""
  pub fresh : lookup (refund_cache_key req.key) s.idempotency ≡ none
  pub found : lookup req.order_id s.orders ≡ some order
  pub awaiting : order.status ≡ order_awaiting_shipment
  pub asked : order.buyer_cancellation_requested ≡ true
  pub positive : pos 0 <ℤ req.amount
  pub bounded : req.amount ≤ℤ order.amount
  pub wet : req.dry_run ≡ false

may_refund-Accepted :
    (req : RefundRequest) (s : Service) (order : Order)
    → req.key ≢ ""
    → lookup (refund_cache_key req.key) s.idempotency ≡ none
    → lookup req.order_id s.orders ≡ some order
    → may_refund req order ≡ true
    → req.dry_run ≡ false
    → Accepted req s order
unfolding may_refund
may_refund-Accepted req s order keyed fresh found allowed wet = ground arith

pub refund_cases {ℓ} :
    (P : Service → Type ℓ) (now : ℕ) (req : RefundRequest) (s : Service)
    → P s
    → ((order : Order) → Accepted req s order → P (commit_refund now req order s).0)
    → P (approve_refund now req s).0
unfolding approve_refund new_refund commit_refund
refund_cases P now req s same commits = elim (Bool-cases (req.key == "")) [
  | inl e ↦ rw e same
  | inr keyed ↦ elim (Option-cases (lookup (refund_cache_key req.key) s.idempotency)) [
    | inr (c, e) ↦ rw (keyed, e, approve_refund) same
    | inl fresh ↦ elim (Option-cases (lookup req.order_id s.orders)) [
      | inl e ↦ rw (keyed, fresh, e, approve_refund, new_refund) same
      | inr (order, found) ↦ elim (Bool-cases (may_refund req order)) [
        | inr e ↦ rw (keyed, fresh, found, e, approve_refund, new_refund) same
        | inl allowed ↦ elim (Bool-cases req.dry_run) [
          | inl e ↦ rw (keyed, fresh, found, allowed, e, approve_refund, new_refund) same
          | inr wet ↦
              rw (keyed, fresh, found, allowed, wet, approve_refund, new_refund)
                (commits order
                  (may_refund-Accepted req s order (ground arith) fresh found allowed wet))
        ]
      ]
    ]
  ]
]

refund_committed :
    (now : ℕ) (req : RefundRequest) (s : Service) (order : Order)
    → Accepted req s order
    → approve_refund now req s ≡ commit_refund now req order s
unfolding approve_refund new_refund may_refund
refund_committed now req s order a = ground arith

-- A refund request that the conditions of `Accepted` allow is granted: the caller gets an approved
-- refund of the order and the amount asked for, the order is cancelled, and no stock moves.
pub approve_refund_grants :
    (now : ℕ) (req : RefundRequest) (s : Service) (order : Order)
    → Accepted req s order
    → (refund : Refund) × ((approve_refund now req s).1 ≡ ok refund)
      × (refund.order_id ≡ order.id)
      × (refund.amount ≡ req.amount)
      × (refund.status ≡ "approved")
      × (lookup order.id (approve_refund now req s).0.orders
          ≡ some (record order { status = order_cancelled }))
      × (lookup (refund_cache_key req.key) (approve_refund now req s).0.idempotency
          ≡ some (refunded refund))
      × ((approve_refund now req s).0.inventory ≡ s.inventory)
unfolding commit_refund
approve_refund_grants now req s order a =
    let refund =
      refund_record req order ("RF-" <> four_digits (length s.refunds + 1)) "approved" now in
    let now_done : approve_refund now req s ≡ commit_refund now req order s =
      refund_committed now req s order a in
    (
      refund,
      rw now_done,
      refl,
      refl,
      refl,
      rw now_done
          (lookup-insert_self order.id (record order { status = order_cancelled }) s.orders),
      rw now_done (lookup-insert_self (refund_cache_key req.key) (refunded refund) s.idempotency),
      rw now_done,
    )

refund_amount :
    (now : ℕ) (req : RefundRequest) (s : Service) (order : Order) (refund : Refund)
    → Accepted req s order
    → (approve_refund now req s).1 ≡ ok refund
    → refund.amount ≡ req.amount
unfolding commit_refund refund_record
refund_amount now req s order refund a done =
    ground (arith, rw (refund_committed now req s order a) at done)

refund_answered :
    (now : ℕ) (req : RefundRequest) (s : Service) (refund : Refund)
    → req.dry_run ≡ false
    → lookup (refund_cache_key req.key) s.idempotency ≡ none
    → (approve_refund now req s).1 ≡ ok refund
    → (order : Order) × Accepted req s order × (refund.amount ≡ req.amount)
unfolding approve_refund new_refund
refund_answered now req s refund wet fresh done = elim (Bool-cases (req.key == "")) [
  | inl e ↦ absurd (ground (arith, e, done))
  | inr keyed ↦ elim (Option-cases (lookup req.order_id s.orders)) [
    | inl e ↦ absurd (ground (arith, keyed, fresh, e, done))
    | inr (order, found) ↦ elim (Bool-cases (may_refund req order)) [
      | inr e ↦ absurd (ground (arith, keyed, fresh, found, e, done))
      | inl allowed ↦
          let accepted = may_refund-Accepted req s order (ground arith) fresh found allowed wet in
          (order, accepted, refund_amount now req s order refund accepted done)
    ]
  ]
]

-- A refund request under a key that is not answered yet, and that is no dry run: when it is answered
-- with a refund, its key is not empty, the order exists and awaits shipment, its buyer has asked for
-- the cancellation, and the refund is of the amount asked for, which is above zero and at most the
-- order's; when it is answered with an error, it has changed nothing. Amounts are whole cents.
pub approve_refund_checks :
    (now : ℕ) (req : RefundRequest) (s : Service)
    → req.dry_run ≡ false
    → lookup (refund_cache_key req.key) s.idempotency ≡ none
    → ((refund : Refund)
        → (approve_refund now req s).1 ≡ ok refund
        → (order : Order) × (lookup req.order_id s.orders ≡ some order)
          × (req.key ≢ "")
          × (order.status ≡ "awaiting_shipment")
          × (order.buyer_cancellation_requested ≡ true)
          × (refund.amount ≡ req.amount)
          × (pos 0 <ℤ refund.amount)
          × (refund.amount ≤ℤ order.amount))
      × ((e : Error) → (approve_refund now req s).1 ≡ err e → (approve_refund now req s).0 ≡ s)
unfolding approve_refund new_refund commit_refund
approve_refund_checks now req s wet fresh = (
  λ refund done.
      let (order, a, same) = refund_answered now req s refund wet fresh done in
      (
        order,
        a.found,
        a.keyed,
        a.awaiting,
        a.asked,
        same,
        subst (λ n. pos 0 <ℤ n) (sym same) a.positive,
        subst (λ n. n ≤ℤ order.amount) (sym same) a.bounded,
      ),
  λ e refused. ground (arith, refused),
)

pub approve_refund-inventory :
    (now : ℕ) (req : RefundRequest) (s : Service)
    → (approve_refund now req s).0.inventory ≡ s.inventory
unfolding commit_refund
approve_refund-inventory now req s =
    refund_cases (λ t. t.inventory ≡ s.inventory) now req s refl (λ order a. refl)
