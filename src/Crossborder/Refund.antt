-- ===== src/Crossborder/Refund.antt =====
-- `ApproveRefund` of projects/crossborder/internal/service/service.go.
pub mod Once
pub mod Examples
use ecommerce_ops_agent.Base.{
  ℕ, ◌+◌, String, ◌<>◌, Bool, ◌&&◌, ◌||◌, not, none, some, Result, ok, err, if◌then◌else◌, ◌==◌,
  string_eq, length,
}
use ecommerce_ops_agent.Base.Int.{ℤ, pos, leb_ℤ, ltb_ℤ}
use ecommerce_ops_agent.Base.Dict.{lookup, insert}
use ecommerce_ops_agent.Crossborder.Domain.{Order, Refund, order_awaiting_shipment, order_cancelled}
use ecommerce_ops_agent.Crossborder.Decimal.{four_digits}
use ecommerce_ops_agent.Crossborder.State.{
  Service, Error, not_found, invalid_transition, idempotency_key, panic, Cached, refunded,
}

-- `amount` is in whole cents, where the source has a float64 in units; one that is no number, which
-- JSON cannot carry, is not modelled.
pub record RefundRequest : Type 0 where
  pub order_id : String
  pub reason : String
  pub key : String
  pub amount : ℤ
  pub dry_run : Bool

abbrev pub as_refund : Cached → Result Error Refund
as_refund (refunded r) = ok r
as_refund _ = err panic

pub refund_record : RefundRequest → Order → String → String → ℕ → Refund
refund_record req order id status created_at = record {
  id = id;
  order_id = order.id;
  amount = req.amount;
  currency = order.currency;
  reason = req.reason;
  status = status;
  created_at = created_at;
}

abbrev pub refund_cache_key : String → String
refund_cache_key key = "refund:" <> key

unfoldable pub commit_refund : ℕ → RefundRequest → Order → Service → Service × Result Error Refund
unfolding refund_record
commit_refund now req order s =
    let id = "RF-" <> four_digits (length s.refunds + 1) in
    let refund = refund_record req order id "approved" now in
    (
      record s {
        orders = insert order.id (record order { status = order_cancelled }) s.orders;
        refunds = insert id refund s.refunds;
        idempotency = insert (refund_cache_key req.key) (refunded refund) s.idempotency;
      },
      ok refund,
    )

unfoldable pub may_refund : RefundRequest → Order → Bool
may_refund req order =
    order.status == order_awaiting_shipment
    && (order.buyer_cancellation_requested
        && not (leb_ℤ req.amount (pos 0) || ltb_ℤ order.amount req.amount))

unfoldable pub new_refund : ℕ → RefundRequest → Service → Service × Result Error Refund
unfolding may_refund
new_refund now req s = elim (lookup req.order_id s.orders) [
  | none ↦ (s, err not_found)
  | some order ↦
      if not (may_refund req order)
      then (s, err invalid_transition)
      else if req.dry_run
      then (s, ok (refund_record req order "" "validated" 0))
      else commit_refund now req order s
]

unfoldable pub approve_refund : ℕ → RefundRequest → Service → Service × Result Error Refund
approve_refund now req s =
    if req.key == ""
    then (s, err idempotency_key)
    else elim (lookup (refund_cache_key req.key) s.idempotency) [
      | some cached ↦ (s, as_refund cached)
      | none ↦ new_refund now req s
    ]
