-- ===== src/Chain/Execution.antt =====
-- What apply_block does: the conditions under which a block is taken, and what it changes.
use blockchain_workshop.Prelude.{
  List, ◌≡◌, refl, ap, ◌∙◌, ◌⊎◌, ◌↔◌, inl, inr, Bool, true, Result, ok, err, Error, Bytes, arith,
  ◌==◌, bytes_eq_iff, if◌then◌else◌, Bytes_eq, Result-cases,
}
use blockchain_workshop.Prelude.Int.{pos, ◌+ℤ◌, int_laws, int_eq_iff}
use blockchain_workshop.Prelude.Dict.{get_or, get_or-insert}
use blockchain_workshop.Crypto.{Crypto}
use blockchain_workshop.Types.Transaction.{Transaction}
use blockchain_workshop.Types.Block
use blockchain_workshop.Types.Block.{Block}
use blockchain_workshop.Chain.State.{BlockchainState, balance_of}
use blockchain_workshop.Chain.Transfer.{SameView, SameView-refl, SameView-sym, SameView-trans}
use blockchain_workshop.Chain.Supply.{
  total-insert, supply, supply-apply_transaction, IsSolvent, apply_transaction-IsSolvent,
}
use blockchain_workshop.Chain.Runs.{
  Runs, apply_transactions-Runs, Runs-apply_transactions, apply_transactions-keeps,
}
use blockchain_workshop.Chain.Blocks.{
  difficulty, block_reward, seal, apply_transactions, apply_block,
}

sealed_balance :
    (b : Block) (s : BlockchainState) (a : Bytes)
    → balance_of (seal b s) a
      ≡ (if b.coinbase == a then balance_of s b.coinbase +ℤ block_reward else balance_of s a)
sealed_balance b s a =
    get_or-insert b.coinbase a (get_or b.coinbase (pos 0) s.balances +ℤ block_reward) (pos 0)
      s.balances

module _ ⦃c : Crypto⦄ where
  -- `b'` is `b` with its hash, which is hard enough; it follows on `s`, its transactions run, and
  -- `t` reads as the state behind them with the reward paid.
  pub record IsNext (b b' : Block) (s t : BlockchainState) : Type 0 where
    pub number : b.number ≡ s.block_number +ℤ pos 1
    pub parent : b.parent_hash ≡ s.block_hash
    pub hard : Block.has_difficulty difficulty b ≡ ok (true, b')
    pub before_reward : BlockchainState
    pub run : Runs b'.transactions s before_reward
    pub result : SameView t (seal b' before_reward)

  SameView-seal :
      (b : Block) {s t : BlockchainState} → SameView s t → SameView (seal b s) (seal b t)
  SameView-seal b {s} {t} v = record {
    block_number = refl;
    block_hash = refl;
    balances = λ a.
        ground
          (arith, sealed_balance b s a, sealed_balance b t a, v.balances a, v.balances b.coinbase);
    nonces = v.nonces;
  }

  -- All conditions hold but for the transactions.
  module _ (b b' : Block) (s : BlockchainState) (number : b.number ≡ s.block_number +ℤ pos 1)
      (parent : b.parent_hash ≡ s.block_hash)
      (hard : Block.has_difficulty difficulty b ≡ ok (true, b')) where
    pub apply_block_run :
        (apply_transactions b'.transactions s).0 ≡ ok tt
        → apply_block b s ≡ (ok b', seal b' (apply_transactions b'.transactions s).1)
    unfolding apply_block
    apply_block_run h = ground (
      arith,
      int_eq_iff b.number (s.block_number +ℤ pos 1),
      bytes_eq_iff b.parent_hash s.block_hash,
    )

  apply_block_inv :
      (b b' : Block) (s : BlockchainState)
      → (apply_block b s).0 ≡ ok b'
      → (b.number ≡ s.block_number +ℤ pos 1)
        × (b.parent_hash ≡ s.block_hash)
        × (Block.has_difficulty difficulty b ≡ ok (true, b'))
        × ((apply_transactions b'.transactions s).0 ≡ ok tt)
  unfolding apply_block
  apply_block_inv b b' s h = ground (
    arith,
    int_eq_iff b.number (s.block_number +ℤ pos 1),
    bytes_eq_iff b.parent_hash s.block_hash,
  )

  -- apply_block takes a block, with `b'` the block under its newly calculated hash, exactly if some
  -- state is the next one by IsNext: the number and the parent hash fit the state, the new hash is
  -- hard enough, and the transactions run one after the other, each accepted, before the reward is
  -- paid.
  pub apply_block_accepts :
      (b b' : Block) (s : BlockchainState)
      → ((apply_block b s).0 ≡ ok b') ↔ ((t : BlockchainState) × IsNext b b' s t)
  apply_block_accepts b b' s = (accepted, sufficient)
    where
      accepted : (apply_block b s).0 ≡ ok b' → (t : BlockchainState) × IsNext b b' s t
      accepted h =
          let (number, parent, hard, ran) = apply_block_inv b b' s h in
          (
            seal b' (apply_transactions b'.transactions s).1,
            record {
              number = number;
              parent = parent;
              hard = hard;
              before_reward = (apply_transactions b'.transactions s).1;
              run = apply_transactions-Runs b'.transactions s ran;
              result = SameView-refl _;
            },
          )

      sufficient : ((t : BlockchainState) × IsNext b b' s t) → (apply_block b s).0 ≡ ok b'
      sufficient (t, n) =
          let (ran, _) = Runs-apply_transactions s (SameView-refl s) n.run in
          ap (λ (p : Result Block × BlockchainState). p.0)
            (apply_block_run b b' s n.number n.parent n.hard ran)

  -- A block for which the specification IsNext gives a next state is taken, and the state that
  -- apply_block leaves reads as that one.
  pub apply_block_result :
      (b b' : Block) (s t : BlockchainState)
      → IsNext b b' s t
      → ((apply_block b s).0 ≡ ok b') × SameView (apply_block b s).1 t
  apply_block_result b b' s t n =
      let (ran, view) = Runs-apply_transactions s (SameView-refl s) n.run in
      rw (apply_block_run b b' s n.number n.parent n.hard ran)
        (refl, SameView-trans (SameView-seal b' view) (SameView-sym n.result))

  supply-seal : (b : Block) (s : BlockchainState) → supply (seal b s) ≡ supply s +ℤ block_reward
  supply-seal b s = grind (
    int_laws,
    total-insert b.coinbase (get_or b.coinbase (pos 0) s.balances +ℤ block_reward) s.balances,
  )

  supply-apply_transactions :
      (txs : List Transaction) (s : BlockchainState)
      → supply (apply_transactions txs s).1 ≡ supply s
  supply-apply_transactions txs s =
      apply_transactions-keeps (λ t. supply t ≡ supply s)
        (λ tx t h. supply-apply_transaction tx t ∙ h) txs s refl

  -- A block that is taken adds the reward to the sum of all balances, and nothing else.
  pub supply-apply_block :
      (b b' : Block) (s : BlockchainState)
      → (apply_block b s).0 ≡ ok b'
      → supply (apply_block b s).1 ≡ supply s +ℤ block_reward
  supply-apply_block b b' s h =
      let (number, parent, hard, ran) = apply_block_inv b b' s h in
      rw (apply_block_run b b' s number parent hard ran) (
        supply-seal b' (apply_transactions b'.transactions s).1
        ∙ ap (λ x. x +ℤ block_reward) (supply-apply_transactions b'.transactions s))

  -- How far the method gets: it stops before it changes anything, in the transactions, or at the end.
  apply_block_stopped :
      (b : Block) (s : BlockchainState) {e : Error}
      → Block.has_difficulty difficulty b ≡ err e
      → (apply_block b s).1 ≡ s
  unfolding apply_block
  apply_block_stopped b s h = ground arith

  apply_block_states :
      (b b' : Block) (s : BlockchainState) {hard : Bool}
      → Block.has_difficulty difficulty b ≡ ok (hard, b')
      → ((apply_block b s).1 ≡ s)
        ⊎ ((apply_block b s).1 ≡ (apply_transactions b'.transactions s).1)
        ⊎ ((apply_block b s).1 ≡ seal b' (apply_transactions b'.transactions s).1)
  unfolding apply_block
  apply_block_states b b' s h = ground arith

  seal-IsSolvent : (b : Block) (s : BlockchainState) → IsSolvent s → IsSolvent (seal b s)
  seal-IsSolvent b s h a = grind (int_laws, sealed_balance b s a, h a, h b.coinbase)

  -- When no account is overdrawn, none is behind apply_block, whether the block is taken or not.
  pub apply_block-IsSolvent :
      (b : Block) (s : BlockchainState) → IsSolvent s → IsSolvent (apply_block b s).1
  apply_block-IsSolvent b s h = elim (Result-cases (Block.has_difficulty difficulty b)) [
    | inr (e, stopped) ↦ rw (apply_block_stopped b s stopped) h
    | inl ((hard, b'), e) ↦
        let ran =
          apply_transactions-keeps IsSolvent apply_transaction-IsSolvent b'.transactions s h in
        elim (apply_block_states b b' s e) [
          | inl p ↦ rw p h
          | inr (inl p) ↦ rw p ran
          | inr (inr p) ↦ rw p (seal-IsSolvent b' (apply_transactions b'.transactions s).1 ran)
        ]
  ]
