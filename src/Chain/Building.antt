-- ===== src/Chain/Building.antt =====
-- What build_block does: its block is taken by apply_block, whatever was in the pool.
use blockchain_workshop.Prelude.{
  ℕ, zero, suc, ◌≤◌, ◌+◌, ◌-◌, ◌<◌, [], ◌∷◌, ◌++◌, append_assoc, append-nil, List, ◌≡◌, ◌≢◌, refl,
  sym, ap, ◌∙◌, inl, inr, Bool, true, false, Result, ok, Bytes, arith, length, length-append, leb,
  All, Bool-cases, if◌then◌else◌,
}
use mathlib.Core.Path.{subst}
use blockchain_workshop.Prelude.Int.{ℤ, pos, ◌+ℤ◌}
use blockchain_workshop.Crypto.{Crypto}
use blockchain_workshop.Types.Transaction
use blockchain_workshop.Types.Transaction.{Transaction}
use blockchain_workshop.Types.Block
use blockchain_workshop.Types.Block.{Block}
use blockchain_workshop.Mempool.{Mempool, get_transactions, evict_transaction}
use blockchain_workshop.Mempool.Invariant.{hash_of_validated}
use blockchain_workshop.Chain.State.{BlockchainState, apply_transaction}
use blockchain_workshop.Chain.Transfer.{
  SameView, SameView-refl, IsMoved, IsAcceptable, apply_transaction_cases,
  apply_transaction-IsMoved, apply_transaction_lem, apply_transaction_accepts,
}
use blockchain_workshop.Chain.Runs.{Runs, Runs-SameView, done, step, Runs-apply_transactions}
use blockchain_workshop.Chain.Execution.{apply_block_run}
use blockchain_workshop.Chain.Blocks.{
  difficulty, max_transactions_per_block, apply_block, try_transaction, build_loop, build_block,
}

module _ ⦃c : Crypto⦄ where
  -- The signature can be checked: there is one, and the sender is a key.
  abbrev pub IsCheckable : Transaction → Type 0
  IsCheckable tx = (valid : Bool) × (Transaction.validate_signature tx ≡ ok valid)

  -- A round on a checkable transaction does not raise: it takes the transaction, or evicts it and
  -- leaves a state that reads as before.
  pub data Tried (tx : Transaction) (txs : List Transaction) (s : BlockchainState)
      : Result (List Transaction) → BlockchainState → Type 0 where
    taken :
        {r : Result (List Transaction)} {t : BlockchainState}
        → IsAcceptable tx s
        → IsMoved tx s t
        → r ≡ ok (txs ++ tx ∷ [])
        → Tried tx txs s r t
    evicted :
        {r : Result (List Transaction)} {t : BlockchainState}
        → ¬ IsAcceptable tx s
        → SameView t s
        → r ≡ ok txs
        → Tried tx txs s r t

  not_raised :
      (tx : Transaction) (s : BlockchainState) {valid : Bool}
      → Transaction.validate_signature tx ≡ ok valid
      → (apply_transaction tx s).0 ≢ ok true
      → (apply_transaction tx s).0 ≡ ok false
  not_raised tx s e h = ground (arith, apply_transaction_lem tx s)

  try_taken :
      (tx : Transaction) (txs : List Transaction) (s : BlockchainState) (m : Mempool)
      → (apply_transaction tx s).0 ≡ ok true
      → try_transaction tx txs (s, m) ≡ (ok (txs ++ tx ∷ []), ((apply_transaction tx s).1, m))
  unfolding try_transaction
  try_taken tx txs s m h = ground arith

  try_evicted :
      (tx : Transaction) (txs : List Transaction) (s : BlockchainState) (m : Mempool) {h : Bytes}
      → (apply_transaction tx s).0 ≡ ok false
      → Transaction.hash tx ≡ ok h
      → ((try_transaction tx txs (s, m)).0 ≡ ok txs)
        × ((try_transaction tx txs (s, m)).1.0 ≡ (apply_transaction tx s).1)
  unfolding try_transaction evict_transaction
  try_evicted tx txs s m r e = ground arith

  try_transaction-Tried :
      (tx : Transaction) (txs : List Transaction) (s : BlockchainState) (m : Mempool)
      → IsCheckable tx
      → let (r, p) = try_transaction tx txs (s, m) in Tried tx txs s r p.0
  try_transaction-Tried tx txs s m (valid, e) = elim (apply_transaction_cases tx s) [
    | inl (accepted, a) ↦
        rw (try_taken tx txs s m accepted) (taken a (apply_transaction-IsMoved tx s a) refl)
    | inr (refused, view) ↦
        let (result, state) =
          try_evicted tx txs s m (not_raised tx s e refused) (hash_of_validated tx e) in
        evicted (λ a. refused ((apply_transaction_accepts tx s).1 a)) (rw state view) result
  ]

  -- What one walk through a pool chooses when there is room for that many transactions: each
  -- transaction that is acceptable when its turn comes, and none that is not.
  pub data Chosen : ℕ → List Transaction → List Transaction → BlockchainState → Type 0 where
    no_room : {pool : List Transaction} {s : BlockchainState} → Chosen zero pool [] s
    no_more : {room : ℕ} {s : BlockchainState} → Chosen room [] [] s
    chosen :
        {room : ℕ} {tx : Transaction} {pool txs : List Transaction} {s t : BlockchainState}
        → IsAcceptable tx s
        → IsMoved tx s t
        → Chosen room pool txs t
        → Chosen (suc room) (tx ∷ pool) (tx ∷ txs) s
    passed_over :
        {room : ℕ} {tx : Transaction} {pool txs : List Transaction} {s t : BlockchainState}
        → ¬ IsAcceptable tx s
        → SameView t s
        → Chosen room pool txs t
        → Chosen room (tx ∷ pool) txs s

  -- What the loop gives back: the transactions that it began with and those that it chose from the
  -- pool, which run.
  pub record Built (pool txs : List Transaction) (s : BlockchainState)
      (r : Result (List Transaction)) (t : BlockchainState) : Type 0 where
    pub added : List Transaction
    pub result : r ≡ ok (txs ++ added)
    pub run : Runs added s t
    pub picked : Chosen (max_transactions_per_block - length txs) pool added s
    pub bounded : length (txs ++ added) ≤ max_transactions_per_block

  -- A round, and then the end or the other rounds.
  build_loop_step :
      (tx : Transaction) (pool txs txs' : List Transaction) (p : BlockchainState × Mempool)
      → (try_transaction tx txs p).0 ≡ ok txs'
      → build_loop (tx ∷ pool) txs p ≡ (
          if leb max_transactions_per_block (length txs')
          then (ok txs', (try_transaction tx txs p).1)
          else build_loop pool txs' (try_transaction tx txs p).1)
  unfolding build_loop
  build_loop_step tx pool txs txs' p h = ground arith

  BuiltBy :
      List Transaction → List Transaction → BlockchainState → BlockchainState × Mempool → Type 0
  BuiltBy pool txs s p = let (r, q) = build_loop pool txs p in Built pool txs s r q.0

  pick_first :
      (tx : Transaction) (pool txs : List Transaction) {added : List Transaction}
      {s t : BlockchainState}
      → IsAcceptable tx s
      → IsMoved tx s t
      → length txs < max_transactions_per_block
      → Chosen (max_transactions_per_block - length (txs ++ tx ∷ [])) pool added t
      → Chosen (max_transactions_per_block - length txs) (tx ∷ pool) (tx ∷ added) s
  pick_first tx pool txs {added} {s} a mv short c =
      let len = length-append txs (tx ∷ []) in
      let room : suc (max_transactions_per_block - length (txs ++ tx ∷ []))
          ≡ max_transactions_per_block - length txs =
        omega arith in
      subst (λ n. Chosen n (tx ∷ pool) (tx ∷ added) s) room (chosen a mv c)

  pick_last :
      (tx : Transaction) (pool txs : List Transaction) {s t : BlockchainState}
      → IsAcceptable tx s
      → IsMoved tx s t
      → length txs < max_transactions_per_block
      → max_transactions_per_block ≤ length (txs ++ tx ∷ [])
      → Chosen (max_transactions_per_block - length txs) (tx ∷ pool) (tx ∷ []) s
  pick_last tx pool txs {s} {t} a mv short full =
      let none_left : zero ≡ max_transactions_per_block - length (txs ++ tx ∷ []) = omega arith in
      pick_first tx pool txs a mv short (subst (λ n. Chosen n pool [] t) none_left no_room)

  built_step :
      (tx : Transaction) (pool txs : List Transaction) (s : BlockchainState) (m : Mempool)
      → length txs < max_transactions_per_block
      → Tried tx txs s (try_transaction tx txs (s, m)).0 (try_transaction tx txs (s, m)).1.0
      → ((txs' : List Transaction)
          → length txs' < max_transactions_per_block
          → BuiltBy pool txs' (try_transaction tx txs (s, m)).1.0 (try_transaction tx txs (s, m)).1)
      → BuiltBy (tx ∷ pool) txs s (s, m)
  unfolding BuiltBy
  built_step tx pool txs s m short (taken a mv e) rest =
      let txs' = txs ++ tx ∷ [] in
      let len : length txs' ≡ length txs + 1 = length-append txs (tx ∷ []) in
      rw (build_loop_step tx pool txs txs' (s, m) e)
        (elim (Bool-cases (leb max_transactions_per_block (length txs'))) [
          | inl full ↦ rw full (record {
            added = tx ∷ [];
            result = refl;
            run = step a mv (done (SameView-refl _));
            picked = pick_last tx pool txs a mv short (ground arith);
            bounded = omega arith;
          })
          | inr room ↦
              let ih = rest txs' (ground arith) in
              rw room (record {
                added = tx ∷ ih.added;
                result = ih.result ∙ ap ok (append_assoc txs (tx ∷ []) ih.added);
                run = step a mv ih.run;
                picked = pick_first tx pool txs a mv short ih.picked;
                bounded = rw append_assoc at ih.bounded;
              })
        ])
  built_step tx pool txs s m short (evicted refused view e) rest =
      let room : leb max_transactions_per_block (length txs) ≡ false = ground arith in
      let ih = rest txs short in
      rw (build_loop_step tx pool txs txs (s, m) e, room)
        (record {
          added = ih.added;
          result = ih.result;
          run = Runs-SameView view ih.run;
          picked = passed_over refused view ih.picked;
          bounded = ih.bounded;
        })

  build_loop-Built :
      (pool txs : List Transaction) (s : BlockchainState) (m : Mempool)
      → All IsCheckable pool
      → length txs < max_transactions_per_block
      → BuiltBy pool txs s (s, m)
  unfolding BuiltBy
  build_loop-Built [] txs s m h short =
      unfold build_loop in
      record {
        added = [];
        result = ap ok (sym (append-nil txs));
        run = done (SameView-refl s);
        picked = no_more;
        bounded = rw append-nil (omega arith);
      }
  build_loop-Built (tx ∷ pool) txs s m h short =
      let p = (try_transaction tx txs (s, m)).1 in
      built_step tx pool txs s m short (try_transaction-Tried tx txs s m h.0)
        λ txs' short'. build_loop-Built pool txs' p.0 p.1 h.1 short'

  built_block :
      (coinbase : Bytes) (s : BlockchainState) (m : Mempool) (txs : List Transaction)
      → (build_loop (get_transactions m) [] (s, m)).0 ≡ ok txs
      → (build_block coinbase (s, m)).0
        ≡ ok (record {
          number = s.block_number +ℤ pos 1;
          nonce = pos 0;
          parent_hash = s.block_hash;
          coinbase = coinbase;
          transactions = txs;
          hash = [];
        })
  unfolding build_block
  built_block coinbase s m txs h = ground arith

  transactions-has_difficulty :
      (d : ℕ) (b b' : Block) {hard : Bool}
      → Block.has_difficulty d b ≡ ok (hard, b')
      → b'.transactions ≡ b.transactions
  unfolding Block.has_difficulty Block.calculate_hash
  transactions-has_difficulty d b b' h = ground arith

  -- The block that build_block gives back for a pool: for the next number, on top of the last block
  -- and with the transactions that one walk through the pool chooses, ten at most, which run in the
  -- state.
  pub record IsBuilt (coinbase : Bytes) (pool : List Transaction) (s : BlockchainState) (b : Block)
      : Type 0 where
    pub number : b.number ≡ s.block_number +ℤ pos 1
    pub parent : b.parent_hash ≡ s.block_hash
    pub pays : b.coinbase ≡ coinbase
    pub bounded : length b.transactions ≤ max_transactions_per_block
    pub from_pool : Chosen max_transactions_per_block pool b.transactions s
    pub final : BlockchainState
    pub run : Runs b.transactions s final

  -- On a pool of checkable transactions build_block returns a block, whatever the state. It has the
  -- next number, the hash of the last block as its parent and the coinbase, and its transactions are
  -- those that one walk through the pool in order chooses until there are ten: each that is
  -- acceptable when its turn comes, behind those chosen before it, and none that is not. They run in
  -- the state one after the other.
  pub build_block-IsBuilt :
      (coinbase : Bytes) (s : BlockchainState) (m : Mempool)
      → All IsCheckable (get_transactions m)
      → (b : Block) × ((build_block coinbase (s, m)).0 ≡ ok b)
        × IsBuilt coinbase (get_transactions m) s b
  unfolding BuiltBy
  build_block-IsBuilt coinbase s m h =
      let built = build_loop-Built (get_transactions m) [] s m h (omega arith) in
      (
        _,
        built_block coinbase s m built.added built.result,
        record {
          number = refl;
          parent = refl;
          pays = refl;
          bounded = built.bounded;
          from_pool = built.picked;
          final = (build_loop (get_transactions m) [] (s, m)).1.0;
          run = built.run;
        },
      )

  -- When all transactions of the pool are checkable, build_block returns a block, and that block
  -- with some nonce has the difficulty: apply_block takes it with that nonce on the state from
  -- which it was built.
  pub apply_block-build_block :
      (coinbase : Bytes) (nonce : ℤ) (s : BlockchainState) (m : Mempool) (b b' : Block)
      → All IsCheckable (get_transactions m)
      → (build_block coinbase (s, m)).0 ≡ ok b
      → Block.has_difficulty difficulty (record b { nonce = nonce }) ≡ ok (true, b')
      → (apply_block (record b { nonce = nonce }) s).0 ≡ ok b'
  apply_block-build_block coinbase nonce s m b b' h built hard =
      let (b0, e, spec0) = build_block-IsBuilt coinbase s m h in
      let same : b0 ≡ b = cc (e, built) in
      let spec : IsBuilt coinbase (get_transactions m) s b =
        subst (IsBuilt coinbase (get_transactions m) s) same spec0 in
      let kept = transactions-has_difficulty difficulty (record b { nonce = nonce }) b' hard in
      let (ran, _) = Runs-apply_transactions s (SameView-refl s) spec.run in
      ap (λ (p : Result Block × BlockchainState). p.0)
        (apply_block_run (record b { nonce = nonce }) b' s spec.number spec.parent hard
          (rw kept ran))
