-- ===== src/Node/Mining.antt =====
-- The search for a proof of work in _produce_block. It takes fuel, and `changed` says of each round
-- whether the chain tip is another one by then.
use blockchain_workshop.Prelude.{
  ℕ, zero, suc, Bool, Option, none, some, Result, ok, err, out_of_fuel, ◌>>=◌, if◌then◌else◌,
}
use blockchain_workshop.Prelude.Int.{pos, ◌+ℤ◌}
use blockchain_workshop.Crypto.{Crypto}
use blockchain_workshop.Types.Block
use blockchain_workshop.Types.Block.{Block}
use blockchain_workshop.Chain.Blocks.{difficulty}

module _ ⦃c : Crypto⦄ where
  -- The loop of _produce_block.
  unfoldable pub mine : ℕ → (ℕ → Bool) → Block → Result (Option Block)
  mine zero changed b = err out_of_fuel
  mine (suc fuel) changed b = do
    b1 ← Block.calculate_hash b
    (hard, b2) ← Block.has_difficulty difficulty b1
    let next = record b2 { nonce = b2.nonce +ℤ pos 1 }
    let rest = mine fuel (λ n. changed (suc n)) next
    if hard then ok (some b2) else if changed zero then ok none else rest
