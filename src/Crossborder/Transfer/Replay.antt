-- ===== src/Crossborder/Transfer/Replay.antt =====
-- `CreateTransfer` under one idempotency key, and what its refusals leave behind.
use ecommerce_ops_agent.Base.{ℕ, ◌≡◌, ◌≢◌, some, true, false, ok, err, ◌⊎◌, arith, string_eq}
use ecommerce_ops_agent.Base.Int.{pos, ◌<ℤ◌}
use ecommerce_ops_agent.Base.Dict.{lookup, lookup-insert_self}
use ecommerce_ops_agent.Crossborder.Domain.{InventoryTransfer}
use ecommerce_ops_agent.Crossborder.State.{Service, Error, transferred}
use ecommerce_ops_agent.Crossborder.Transfer.{
  TransferRequest, create_transfer, new_transfer, commit_transfer, transfer_cache_key,
}

-- A request that fails, or that is a dry run, leaves the whole service as it was.
pub create_transfer_unchanged :
    (now : ℕ) (req : TransferRequest) (s : Service) (e : Error)
    → ((create_transfer now req s).1 ≡ err e) ⊎ (req.dry_run ≡ true)
    → (create_transfer now req s).0 ≡ s
unfolding create_transfer new_transfer commit_transfer
create_transfer_unchanged now req s e h = ground arith

pub recorded :
    (now : ℕ) (req : TransferRequest) (s : Service) (t : InventoryTransfer)
    → req.dry_run ≡ false
    → (create_transfer now req s).1 ≡ ok t
    → lookup (transfer_cache_key req.key) (create_transfer now req s).0.idempotency
      ≡ some (transferred t)
unfolding create_transfer new_transfer commit_transfer
recorded now req s t wet done =
    ground (arith, lookup-insert_self (transfer_cache_key req.key) (transferred t) s.idempotency)

pub replayed :
    (now : ℕ) (req : TransferRequest) (u : Service) (t : InventoryTransfer)
    → lookup (transfer_cache_key req.key) u.idempotency ≡ some (transferred t)
    → req.key ≢ ""
    → pos 0 <ℤ req.quantity
    → req.from_warehouse ≢ req.to_warehouse
    → create_transfer now req u ≡ (u, ok t)
unfolding create_transfer
replayed now req u t e keyed positive apart = ground arith

pub keyed_of_ok :
    (now : ℕ) (req : TransferRequest) (s : Service) (t : InventoryTransfer)
    → (create_transfer now req s).1 ≡ ok t
    → req.key ≢ ""
unfolding create_transfer
keyed_of_ok now req s t done empty = ground arith
