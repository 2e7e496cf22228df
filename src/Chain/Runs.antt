-- ===== src/Chain/Runs.antt =====
-- The loop of apply_block over a block's transactions.
use blockchain_workshop.Prelude.{
  [], ◌∷◌, List, ◌≡◌, ◌≢◌, refl, sym, ◌∙◌, ◌⊎◌, inl, inr, true, ok, arith, Bytes_eq,
}
use blockchain_workshop.Crypto.{Crypto}
use blockchain_workshop.Types.Transaction.{Transaction}
use blockchain_workshop.Chain.State.{BlockchainState, apply_transaction}
use blockchain_workshop.Chain.Transfer.{
  SameView, SameView-refl, SameView-sym, SameView-trans, IsMoved, IsMoved-SameView, IsAcceptable,
  apply_transaction_cases, apply_transaction-IsMoved, apply_transaction_accepts,
}
use blockchain_workshop.Chain.Blocks.{apply_transactions}

module _ ⦃c : Crypto⦄ where
  -- The transactions are acceptable one after the other, each in the state behind those before it,
  -- and lead from `s` to `t`, up to what can be read of a state.
  pub data Runs : List Transaction → BlockchainState → BlockchainState → Type 0 where
    done : {s t : BlockchainState} → SameView t s → Runs [] s t
    step :
        {tx : Transaction} {txs : List Transaction} {s u t : BlockchainState}
        → IsAcceptable tx s
        → IsMoved tx s u
        → Runs txs u t
        → Runs (tx ∷ txs) s t

  apply_transactions_step :
      (tx : Transaction) (txs : List Transaction) (s : BlockchainState)
      → (apply_transaction tx s).0 ≡ ok true
      → apply_transactions (tx ∷ txs) s ≡ apply_transactions txs (apply_transaction tx s).1
  unfolding apply_transactions
  apply_transactions_step tx txs s h = ground arith

  apply_transactions_stop :
      (tx : Transaction) (txs : List Transaction) (s : BlockchainState)
      → (apply_transaction tx s).0 ≢ ok true
      → (apply_transactions (tx ∷ txs) s).0 ≢ ok tt
  unfolding apply_transactions
  apply_transactions_stop tx txs s h = ground arith

  -- The loop over a block's transactions ends without an exception only on a run of acceptable
  -- transactions.
  pub apply_transactions-Runs :
      (txs : List Transaction) (s : BlockchainState)
      → (apply_transactions txs s).0 ≡ ok tt
      → Runs txs s (apply_transactions txs s).1
  apply_transactions-Runs [] s h = unfold apply_transactions in done (SameView-refl s)
  apply_transactions-Runs (tx ∷ txs) s h = elim (apply_transaction_cases tx s) [
    | inl (e, acceptable) ↦
        let run = apply_transactions_step tx txs s e in
        rw run (
          step acceptable (apply_transaction-IsMoved tx s acceptable)
            (apply_transactions-Runs txs (apply_transaction tx s).1 (rw run at h)))
    | inr (refused, _) ↦ absurd (apply_transactions_stop tx txs s refused h)
  ]

  -- Where the loop stops: behind the first transaction or behind the others.
  rest_of_run :
      (tx : Transaction) (txs : List Transaction) (s : BlockchainState)
      → ((apply_transactions (tx ∷ txs) s).1
          ≡ (apply_transactions txs (apply_transaction tx s).1).1)
        ⊎ ((apply_transactions (tx ∷ txs) s).1 ≡ (apply_transaction tx s).1)
  unfolding apply_transactions
  rest_of_run tx txs s = ground arith

  -- A property of states that every transaction keeps.
  pub apply_transactions-keeps :
      (P : BlockchainState → Type 0)
      → ((tx : Transaction) (s : BlockchainState) → P s → P (apply_transaction tx s).1)
      → (txs : List Transaction) (s : BlockchainState) → P s
      → P (apply_transactions txs s).1
  apply_transactions-keeps P keep [] s h = unfold apply_transactions in h
  apply_transactions-keeps P keep (tx ∷ txs) s h =
      let rest = apply_transactions-keeps P keep txs (apply_transaction tx s).1 (keep tx s h) in
      elim (rest_of_run tx txs s) [ inl e ↦ rw e rest | inr e ↦ rw e (keep tx s h) ]

  -- Transactions are accepted or refused alike in states of which the same can be read.
  pub SameView-IsAcceptable :
      {tx : Transaction} {s t : BlockchainState}
      → SameView s t
      → IsAcceptable tx t
      → IsAcceptable tx s
  SameView-IsAcceptable {tx} v a = record {
    valid = a.valid;
    nonneg = a.nonneg;
    in_turn = v.nonces tx.sender ∙ a.in_turn;
    covered = rw (v.balances tx.sender) a.covered;
  }

  IsMoved-unique :
      {tx : Transaction} {s t u v : BlockchainState}
      → SameView s t
      → IsMoved tx s u
      → IsMoved tx t v
      → SameView u v
  IsMoved-unique w m n = record {
    block_number = m.block_number ∙ w.block_number ∙ sym n.block_number;
    block_hash = m.block_hash ∙ w.block_hash ∙ sym n.block_hash;
    balances = λ a. ground (arith, m.balances a, n.balances a, w.balances a);
    nonces = λ a. ground (arith, m.nonces a, n.nonces a, w.nonces a);
  }

  -- On a run of acceptable transactions the loop does not raise, and its state reads as the run's.
  pub Runs-apply_transactions :
      {txs : List Transaction} {s t : BlockchainState} (s' : BlockchainState)
      → SameView s' s
      → Runs txs s t
      → ((apply_transactions txs s').0 ≡ ok tt) × SameView (apply_transactions txs s').1 t
  Runs-apply_transactions s' v (done w) =
      unfold apply_transactions in (refl, SameView-trans v (SameView-sym w))
  Runs-apply_transactions s' v (step {tx} {txs} a m r) =
      let a' = SameView-IsAcceptable v a in
      rw (apply_transactions_step tx txs s' ((apply_transaction_accepts tx s').1 a')) (
        Runs-apply_transactions (apply_transaction tx s').1
          (IsMoved-unique v (apply_transaction-IsMoved tx s' a') m) r)

  -- A run can start wherever the same is read.
  pub Runs-SameView :
      {txs : List Transaction} {s s' t : BlockchainState}
      → SameView s' s
      → Runs txs s' t
      → Runs txs s t
  Runs-SameView v (done w) = done (SameView-trans w v)
  Runs-SameView v (step a m r) =
      step (SameView-IsAcceptable (SameView-sym v) a) (IsMoved-SameView v m) r
