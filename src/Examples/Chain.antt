-- ===== src/Examples/Chain.antt =====
-- The state transition function and the building of blocks at concrete inputs.
use blockchain_workshop.Prelude.{[], ◌∷◌, ◌≡◌, ◌≢◌, ◌↔◌, refl, true, ok, err, arith, All}
use blockchain_workshop.Prelude.Int.{pos, ◌+ℤ◌}
use blockchain_workshop.Types.Block
use blockchain_workshop.Types.Block.{Block}
use blockchain_workshop.Types.Transaction
use blockchain_workshop.Mempool.{Mempool, get_transactions}
use blockchain_workshop.Chain.State.{BlockchainState, apply_transaction}
use blockchain_workshop.Chain.Transfer.{
  IsAcceptable, IsMoved, apply_transaction_accepts, apply_transaction-IsMoved, SameView-refl,
}
use blockchain_workshop.Chain.Supply.{supply, IsSolvent}
use blockchain_workshop.Chain.Blocks.{difficulty, seal, block_reward, apply_block, build_block}
use blockchain_workshop.Chain.Runs.{done}
use blockchain_workshop.Chain.Execution.{
  IsNext, apply_block_accepts, supply-apply_block, apply_block-IsSolvent,
}
use blockchain_workshop.Chain.Replay.{here, no_replay}
use blockchain_workshop.Chain.Building.{
  IsCheckable, IsBuilt, build_block-IsBuilt, apply_block-build_block,
}
use blockchain_workshop.Examples.World.{toy, miner, tx, late_tx, state, executable}

abbrev next : Block
next = record {
  number = pos 4;
  nonce = pos 0;
  parent_hash = 5 ∷ 6 ∷ [];
  coinbase = miner;
  transactions = tx ∷ [];
  hash = [];
}

-- The block with the nonce that the miner found, and with its hash.
abbrev mined : Block
mined = elim (Block.calculate_hash (record next { nonce = pos 12 })) [ ok b ↦ b | err e ↦ next ]

abbrev pool : Mempool
pool = record {
  transactions = (1 ∷ [], late_tx) ∷ (2 ∷ [], tx) ∷ [];
  last_seen = (1 ∷ [], 5) ∷ (2 ∷ [], 6) ∷ [];
}

taken : (apply_transaction tx state).0 ≡ ok true
unfolding executable
taken = refl

checkable : All IsCheckable (get_transactions pool)
unfolding executable
checkable = ((true, refl), ((true, refl), tt))

-- The transaction out of turn is left out.
built : (build_block miner (state, pool)).0 ≡ ok next
unfolding executable
built = refl

hard : Block.has_difficulty difficulty (record next { nonce = pos 12 }) ≡ ok (true, mined)
unfolding executable
hard = refl

apply_block-build_block_example : (apply_block (record next { nonce = pos 12 }) state).0 ≡ ok mined
apply_block-build_block_example =
    apply_block-build_block miner (pos 12) state pool next mined checkable built hard

build_block-IsBuilt_example :
    (b : Block) × ((build_block miner (state, pool)).0 ≡ ok b)
    × IsBuilt miner (get_transactions pool) state b
build_block-IsBuilt_example = build_block-IsBuilt miner state pool checkable

apply_block_accepts_example :
    ((apply_block (record next { nonce = pos 12 }) state).0 ≡ ok mined)
    ↔ ((t : BlockchainState) × IsNext (record next { nonce = pos 12 }) mined state t)
apply_block_accepts_example = apply_block_accepts (record next { nonce = pos 12 }) mined state

supply-apply_block_example :
    supply (apply_block (record next { nonce = pos 12 }) state).1 ≡ supply state +ℤ block_reward
supply-apply_block_example =
    supply-apply_block (record next { nonce = pos 12 }) mined state apply_block-build_block_example

state-IsSolvent : IsSolvent state
unfolding executable
state-IsSolvent a = ground arith

apply_block-IsSolvent_example : IsSolvent (apply_block (record next { nonce = pos 12 }) state).1
apply_block-IsSolvent_example =
    apply_block-IsSolvent (record next { nonce = pos 12 }) state state-IsSolvent

no_replay_example : (apply_transaction tx (seal mined (apply_transaction tx state).1)).0 ≢ ok true
no_replay_example =
    no_replay tx [] mined state (apply_transaction tx state).1
      (seal mined (apply_transaction tx state).1) taken (done (SameView-refl _)) here

apply_transaction_accepts_example :
    ((apply_transaction tx state).0 ≡ ok true) ↔ IsAcceptable tx state
apply_transaction_accepts_example = apply_transaction_accepts tx state

tx-IsAcceptable : IsAcceptable tx state
tx-IsAcceptable = (apply_transaction_accepts tx state).0 taken

apply_transaction-IsMoved_example : IsMoved tx state (apply_transaction tx state).1
apply_transaction-IsMoved_example = apply_transaction-IsMoved tx state tx-IsAcceptable
