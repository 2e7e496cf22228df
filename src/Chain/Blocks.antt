-- ===== src/Chain/Blocks.antt =====
-- Blockchain.apply_block and Blockchain.build_block.
use blockchain_workshop.Prelude.{
  ℕ, [], ◌∷◌, ◌++◌, List, not, value_error, Action, Bytes, length, leb, ◌==◌, if◌then◌else◌,
  Bytes_eq,
}
use blockchain_workshop.Prelude.Int.{ℤ, pos, ◌+ℤ◌, ℤ_eq}
use blockchain_workshop.Prelude.Dict.{get_or, insert}
use blockchain_workshop.Prelude.Actions.{pure, raise, lift, gets, modify, ◌>>=◌, ◌>>◌}
use blockchain_workshop.Crypto.{Crypto}
use blockchain_workshop.Types.Transaction.{Transaction}
use blockchain_workshop.Types.Block
use blockchain_workshop.Types.Block.{Block}
use blockchain_workshop.Mempool.{Mempool, get_transactions, evict_transaction}
use blockchain_workshop.Chain.State.{BlockchainState, apply_transaction}

-- _DIFFICULTY, _MAX_TRANSACTIONS_PER_BLOCK and _BLOCK_REWARD
abbrev pub difficulty : ℕ
difficulty = 7

abbrev pub max_transactions_per_block : ℕ
max_transactions_per_block = 10

abbrev pub block_reward : ℤ
block_reward = pos 10000

-- The coinbase gets the reward, and the block becomes the state's last one.
abbrev pub seal : Block → BlockchainState → BlockchainState
seal b s = record s {
  block_number = b.number;
  block_hash = b.hash;
  balances = insert b.coinbase (get_or b.coinbase (pos 0) s.balances +ℤ block_reward) s.balances;
}

module _ ⦃c : Crypto⦄ where
  unfoldable pub apply_transactions : List Transaction → Action BlockchainState (Unit {0})
  apply_transactions [] = pure tt
  apply_transactions (tx ∷ txs) = do
    accepted ← apply_transaction tx
    if not accepted then raise value_error else apply_transactions txs

  -- The block comes back as the difficulty test left it, with its hash calculated anew.
  unfoldable pub apply_block : Block → Action BlockchainState Block
  apply_block b = do
    number ← gets (λ s. s.block_number)
    hash ← gets (λ s. s.block_hash)
    if not (b.number == (number +ℤ pos 1))
        then raise value_error
        else if not (b.parent_hash == hash)
        then raise value_error
        else do
          (hard, b') ← lift (Block.has_difficulty difficulty b)
          if not hard
              then raise value_error
              else do apply_transactions b'.transactions; modify (seal b'); pure b'

  -- The state and the pool are separate objects, which the loop changes in turn.
  abbrev on_state {ℓ} :
      {A : Type ℓ} → Action BlockchainState A → Action (BlockchainState × Mempool) A
  on_state m p = let (r, s) = m p.0 in (r, (s, p.1))

  abbrev on_mempool {ℓ} : {A : Type ℓ} → Action Mempool A → Action (BlockchainState × Mempool) A
  on_mempool m p = let (r, q) = m p.1 in (r, (p.0, q))

  -- One round, from the transactions of the block so far to those behind the round.
  unfoldable pub try_transaction :
      Transaction → List Transaction → Action (BlockchainState × Mempool) (List Transaction)
  try_transaction tx txs = do
    accepted ← on_state (apply_transaction tx)
    if accepted then pure (txs ++ tx ∷ []) else (on_mempool (evict_transaction tx) >> pure txs)

  unfoldable pub build_loop :
      List Transaction → List Transaction → Action (BlockchainState × Mempool) (List Transaction)
  build_loop [] txs = pure txs
  build_loop (tx ∷ rest) txs = do
    txs' ← try_transaction tx txs
    if leb max_transactions_per_block (length txs') then pure txs' else build_loop rest txs'

  unfoldable pub build_block : Bytes → Action (BlockchainState × Mempool) Block
  build_block coinbase = do
    number ← gets (λ p. p.0.block_number)
    hash ← gets (λ p. p.0.block_hash)
    pool ← gets (λ p. get_transactions p.1)
    txs ← build_loop pool []
    pure (record {
      number = number +ℤ pos 1;
      nonce = pos 0;
      parent_hash = hash;
      coinbase = coinbase;
      transactions = txs;
      hash = [];
    })
