-- ===== src/Chain/Replay.antt =====
-- Nonces only grow, so a transaction is taken once.
use blockchain_workshop.Prelude.{
  List, ◌≡◌, ◌≢◌, Bool, true, false, ok, Bytes, arith, ◌==◌, ==_refl, Bytes_eq,
}
use blockchain_workshop.Prelude.Int.{pos, ◌+ℤ◌, ◌≤ℤ◌, int_laws}
use blockchain_workshop.Crypto.{Crypto}
use blockchain_workshop.Types.Transaction.{Transaction}
use blockchain_workshop.Types.Block.{Block}
use blockchain_workshop.Chain.State.{BlockchainState, apply_transaction, nonce_of}
use blockchain_workshop.Chain.Transfer.{
  part, IsMoved, apply_transaction_accepts, apply_transaction-IsMoved,
}
use blockchain_workshop.Chain.Runs.{Runs, done, step}
use blockchain_workshop.Chain.Execution.{IsNext}
use blockchain_workshop.Chain.Blocks.{seal}

part_nonneg : (b : Bool) → pos 0 ≤ℤ part b (pos 1)
part_nonneg true = omega arith
part_nonneg false = omega arith

IsMoved-nonces :
    {tx : Transaction} {s u : BlockchainState} (a : Bytes)
    → IsMoved tx s u
    → nonce_of s a ≤ℤ nonce_of u a
IsMoved-nonces {tx} a m = grind (int_laws, m.nonces a, part_nonneg (tx.sender == a))

module _ ⦃c : Crypto⦄ where
  Runs-nonces :
      {txs : List Transaction} {s t : BlockchainState} (a : Bytes)
      → Runs txs s t
      → nonce_of s a ≤ℤ nonce_of t a
  Runs-nonces a (done v) = grind (int_laws, v.nonces a)
  Runs-nonces a (step h m r) = grind (int_laws, IsMoved-nonces a m, Runs-nonces a r)

  -- A sequence of blocks, each of them the next one.
  pub data Grows : BlockchainState → BlockchainState → Type 0 where
    here : {s : BlockchainState} → Grows s s
    later : {b b' : Block} {s t u : BlockchainState} → IsNext b b' s t → Grows t u → Grows s u

  next-nonces :
      {b b' : Block} {s t : BlockchainState} (a : Bytes)
      → IsNext b b' s t
      → nonce_of s a ≤ℤ nonce_of t a
  next-nonces a n = grind (int_laws, Runs-nonces a n.run, n.result.nonces a)

  Grows-nonces : {s t : BlockchainState} (a : Bytes) → Grows s t → nonce_of s a ≤ℤ nonce_of t a
  Grows-nonces a here = omega arith
  Grows-nonces a (later n g) = grind (int_laws, next-nonces a n, Grows-nonces a g)

  taken_nonce :
      (tx : Transaction) (s : BlockchainState)
      → (apply_transaction tx s).0 ≡ ok true
      → nonce_of (apply_transaction tx s).1 tx.sender ≡ tx.nonce +ℤ pos 1
  taken_nonce tx s h =
      let acceptable = (apply_transaction_accepts tx s).0 h in
      let m = apply_transaction-IsMoved tx s acceptable in
      rw (m.nonces tx.sender, acceptable.in_turn, ==_refl tx.sender)

  -- A transaction that was accepted is refused ever after: behind the transactions that follow it
  -- in its block `b`, the seal of that block, and any number of further blocks that are taken.
  pub no_replay :
      (tx : Transaction) (txs : List Transaction) (b : Block) (s t v : BlockchainState)
      → (apply_transaction tx s).0 ≡ ok true
      → Runs txs (apply_transaction tx s).1 t
      → Grows (seal b t) v
      → (apply_transaction tx v).0 ≢ ok true
  no_replay tx txs b s t v h r g again =
      let refused = (apply_transaction_accepts tx v).0 again in
      grind (
        int_laws,
        taken_nonce tx s h,
        Runs-nonces tx.sender r,
        Grows-nonces tx.sender g,
        refused.in_turn,
      )
