-- ===== src/Mempool/Invariant.antt =====
-- The pool files every transaction under its hash, once, with the time it was last seen.
use blockchain_workshop.Prelude.{
  ℕ, [], ◌∷◌, ◌≡◌, refl, Bool, true, false, none, some, Result, ok, err, Bytes, arith, ◌==◌,
  bytes_eq_iff, if◌then◌else◌, Bytes_eq, Result-cases, inl, inr, ◌++◌, ◌&&◌,
}
use blockchain_workshop.Prelude.Dict.{
  Dict, lookup, insert, remove, contains, lookup-insert, lookup-remove, contains-insert,
  contains-remove,
}
use blockchain_workshop.Prelude.Actions.{pure, ◌>>=◌, ◌>>◌, keeps_bind}
use blockchain_workshop.Text.Hex.{hex}
use blockchain_workshop.Crypto.{Crypto}
use blockchain_workshop.Types.Transaction
use blockchain_workshop.Types.Transaction.{Transaction}
use blockchain_workshop.Mempool.{Mempool, add_transaction, evict_transaction, handle_new_tx}

module _ ⦃c : Crypto⦄ where
  abbrev pub IsFiled : Dict Bytes Transaction → Type 0
  IsFiled [] = Unit
  IsFiled ((h, tx) ∷ d) = (Transaction.hash tx ≡ ok h) × (lookup h d ≡ none) × IsFiled d

  pub record IsValid (m : Mempool) : Type 0 where
    pub filed : IsFiled m.transactions
    pub seen : (h : Bytes) → contains h m.last_seen ≡ contains h m.transactions

  insert-IsFiled :
      (h : Bytes) (tx : Transaction) (d : Dict Bytes Transaction)
      → Transaction.hash tx ≡ ok h
      → IsFiled d
      → IsFiled (insert h tx d)
  unfolding insert
  insert-IsFiled h tx [] e f = (e, unfold lookup in refl, tt)
  insert-IsFiled h tx ((j, u) ∷ d) e f = ground (
    arith,
    insert-IsFiled h tx d e f.2,
    lookup-insert h j tx d,
    bytes_eq_iff j h,
    bytes_eq_iff h j,
  )

  remove-IsFiled : (h : Bytes) (d : Dict Bytes Transaction) → IsFiled d → IsFiled (remove h d)
  unfolding remove
  remove-IsFiled h [] f = tt
  remove-IsFiled h ((j, u) ∷ d) f = ground (arith, remove-IsFiled h d f.2, lookup-remove h j d)

  -- A valid pool stays valid when a transaction is added, also when that raises.
  pub add_transaction-IsValid :
      (now : ℕ) (tx : Transaction) (m : Mempool) → IsValid m → IsValid (add_transaction now tx m).1
  unfolding add_transaction
  add_transaction-IsValid now tx m v = elim (Result-cases (Transaction.hash tx)) [
    | inl (h, e) ↦ rw e (record {
      filed = insert-IsFiled h tx m.transactions e v.filed;
      seen = λ j. rw (contains-insert, contains-insert, v.seen j);
    })
    | inr (x, e) ↦ rw e v
  ]

  pub evict_transaction-IsValid :
      (tx : Transaction) (m : Mempool) → IsValid m → IsValid (evict_transaction tx m).1
  unfolding evict_transaction
  evict_transaction-IsValid tx m v = elim (Result-cases (Transaction.hash tx)) [
    | inl (h, e) ↦ rw e (record {
      filed = remove-IsFiled h m.transactions v.filed;
      seen = λ j. rw (contains-remove, contains-remove, v.seen j);
    })
    | inr (x, e) ↦ rw e v
  ]

  checked-IsValid :
      (now : ℕ) (tx : Transaction) (m : Mempool) (r : Result Bool)
      → IsValid m
      → IsValid
          (((λ _. (r, m)) >>= λ valid.
              if valid then (add_transaction now tx >> pure true) else pure false)
            m).1
  checked-IsValid now tx m (ok true) v =
      keeps_bind IsValid (λ _. pure true) (add_transaction now tx) m
        (add_transaction-IsValid now tx m v) (λ _ _. add_transaction-IsValid now tx m v)
  checked-IsValid now tx m (ok false) v = v
  checked-IsValid now tx m (err e) v = v

  -- A valid pool stays valid behind any message from the network, also when the handler raises.
  pub handle_new_tx-IsValid :
      (now : ℕ) (message : Bytes) (m : Mempool)
      → IsValid m
      → IsValid (handle_new_tx now message m).1
  unfolding handle_new_tx
  handle_new_tx-IsValid now message m v = elim (Result-cases (Transaction.deserialize message)) [
    | inl (tx, e) ↦ rw e (checked-IsValid now tx m (Transaction.validate_signature tx) v)
    | inr (x, e) ↦ rw e v
  ]

  -- A transaction whose signature can be checked has a hash.
  pub hash_of_validated :
      (tx : Transaction) {valid : Bool}
      → Transaction.validate_signature tx ≡ ok valid
      → Transaction.hash tx ≡ ok (c.sha256 (Transaction.data_to_sign tx ++ (b',' ∷ hex tx.sig)))
  unfolding Transaction.validate_signature Transaction.hash Transaction.serialize
  hash_of_validated tx e = ground arith

  -- When a message reads as a transaction and the test of its signature does not raise, the handler
  -- returns the outcome of that test; if it is True the pool then holds the transaction under its
  -- hash, and no other entry of the transactions changes.
  pub handle_new_tx_lem :
      (now : ℕ) (message : Bytes) (m : Mempool) (tx : Transaction) (valid : Bool) (j : Bytes)
      → Transaction.deserialize message ≡ ok tx
      → Transaction.validate_signature tx ≡ ok valid
      → (h : Bytes) × (Transaction.hash tx ≡ ok h)
        × ((handle_new_tx now message m).0 ≡ ok valid)
        × (lookup j (handle_new_tx now message m).1.transactions
            ≡ (if valid && (h == j) then some tx else lookup j m.transactions))
  unfolding handle_new_tx add_transaction
  handle_new_tx_lem now message m tx valid j parsed checked =
      let h = c.sha256 (Transaction.data_to_sign tx ++ (b',' ∷ hex tx.sig)) in
      let hashed = hash_of_validated tx checked in
      (
        h,
        hashed,
        ground (arith, hashed),
        ground (arith, hashed, lookup-insert h j tx m.transactions),
      )
