-- ===== src/Crossborder/Transfer/Cases.antt =====
-- The one path of `CreateTransfer` that writes, with what the checks have established on it.
use ecommerce_ops_agent.Base.{
  ℕ, ◌≡◌, ◌≢◌, inl, inr, none, some, false, arith, Bool-cases, Option-cases, string_eq, ◌==◌, ◌||◌,
}
use ecommerce_ops_agent.Base.Int.{pos, ◌≤ℤ◌, ◌<ℤ◌, leb_ℤ, ltb_ℤ}
use ecommerce_ops_agent.Base.Dict.{lookup}
use ecommerce_ops_agent.Crossborder.Domain.{InventoryBalance, TransferLane}
use ecommerce_ops_agent.Crossborder.State.{Service, inventory_key}
use ecommerce_ops_agent.Crossborder.Transfer.{
  TransferRequest, create_transfer, new_transfer, commit_transfer, find_lane, transfer_cache_key,
}

-- What holds where a transfer is committed.
pub record Accepted (req : TransferRequest) (s : Service) (lane : TransferLane)
    (from : InventoryBalance) : Type 0 where
  pub keyed : req.key ≢ ""
  pub positive : pos 0 <ℤ req.quantity
  pub apart : req.from_warehouse ≢ req.to_warehouse
  pub fresh : lookup (transfer_cache_key req.key) s.idempotency ≡ none
  pub routed : find_lane req.from_warehouse req.to_warehouse s.transfer_lanes ≡ some lane
  pub held : lookup (inventory_key req.from_warehouse req.sku) s.inventory ≡ some from
  pub enough : req.quantity ≤ℤ from.available
  pub wet : req.dry_run ≡ false

module _ {ℓ} (P : Service → Type ℓ) (now : ℕ) (req : TransferRequest) (s : Service) (same : P s)
    (commits : (lane : TransferLane) (from : InventoryBalance)
      → Accepted req s lane from
      → P (commit_transfer now req lane from s).0) where
  new_transfer_cases :
      req.key ≢ ""
      → pos 0 <ℤ req.quantity
      → req.from_warehouse ≢ req.to_warehouse
      → lookup (transfer_cache_key req.key) s.idempotency ≡ none
      → P (new_transfer now req s).0
  unfolding new_transfer commit_transfer
  new_transfer_cases keyed positive apart fresh =
      elim (Option-cases (find_lane req.from_warehouse req.to_warehouse s.transfer_lanes)) [
        | inl e ↦ rw (e, new_transfer) same
        | inr (lane, routed) ↦
            elim (Option-cases (lookup (inventory_key req.from_warehouse req.sku) s.inventory)) [
              | inl e ↦ rw (routed, e, new_transfer) same
              | inr (from, held) ↦ elim (Bool-cases (ltb_ℤ from.available req.quantity)) [
                | inl e ↦ rw (routed, held, e, new_transfer) same
                | inr enough ↦ elim (Bool-cases req.dry_run) [
                  | inl e ↦ rw (routed, held, enough, e, new_transfer) same
                  | inr wet ↦
                      rw (routed, held, enough, wet, new_transfer)
                        (commits lane from (record {
                          keyed = keyed;
                          positive = positive;
                          apart = apart;
                          fresh = fresh;
                          routed = routed;
                          held = held;
                          enough = ground arith;
                          wet = wet;
                        }))
                ]
              ]
            ]
      ]

  pub create_transfer_cases : P (create_transfer now req s).0
  unfolding create_transfer
  create_transfer_cases = elim (Bool-cases (req.key == "")) [
    | inl e ↦ rw e same
    | inr keyed ↦
        elim (Bool-cases (leb_ℤ req.quantity (pos 0) || req.from_warehouse == req.to_warehouse)) [
          | inl e ↦ rw (keyed, e) same
          | inr valid ↦ elim (Option-cases (lookup (transfer_cache_key req.key) s.idempotency)) [
            | inr (c, e) ↦ rw (keyed, valid, e, create_transfer) same
            | inl fresh ↦
                rw (keyed, valid, fresh, create_transfer)
                  (new_transfer_cases (ground arith) (ground arith) (ground arith) fresh)
          ]
        ]
  ]
