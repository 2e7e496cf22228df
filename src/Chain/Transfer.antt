-- ===== src/Chain/Transfer.antt =====
-- What _apply_transaction does, in terms of balances and nonces as they are read.
use blockchain_workshop.Prelude.{
  ◌≡◌, refl, sym, ◌↔◌, Bool, true, false, not, ◌||◌, ◌⊎◌, inl, inr, Result-cases, ◌∙◌, ◌≢◌, ==_refl,
  ok, err, Bytes, arith, ◌==◌, bytes_eq_iff, if◌then◌else◌, Bytes_eq,
}
use blockchain_workshop.Prelude.Int.{
  ℤ, pos, ◌+ℤ◌, ◌-ℤ◌, ◌≤ℤ◌, ltb_ℤ, ℤ_eq, int_eq, int_eq_iff, int_laws,
}
use blockchain_workshop.Prelude.Dict.{
  get_or, insert, contains, contains-setdefault, contains-insert, subscript_of_contains,
  get_or-insert, get_or-setdefault,
}
use blockchain_workshop.Crypto.{Crypto}
use blockchain_workshop.Types.Transaction
use blockchain_workshop.Types.Transaction.{Transaction}
use blockchain_workshop.Chain.State.{
  BlockchainState, default_accounts, move_funds, check_accounts, apply_transaction, balance_of,
  nonce_of,
}

-- The state behind an accepted transaction.
abbrev pub moved : Transaction → BlockchainState → BlockchainState
moved tx s =
    let from = get_or tx.sender (pos 0) s.balances in
    let paid = insert tx.sender (from -ℤ tx.amount) s.balances in
    let to = get_or tx.receiver (pos 0) paid in
    record s {
      balances = insert tx.receiver (to +ℤ tx.amount) paid;
      nonces = insert tx.sender (get_or tx.sender (pos 0) s.nonces +ℤ pos 1) s.nonces;
    }

module _ (tx : Transaction) (s : BlockchainState)
    (has_sender : contains tx.sender s.balances ≡ true)
    (has_receiver : contains tx.receiver s.balances ≡ true)
    (has_nonce : contains tx.sender s.nonces ≡ true) where
  receiver_after_payment :
      contains tx.receiver
        (insert tx.sender (get_or tx.sender (pos 0) s.balances -ℤ tx.amount) s.balances)
      ≡ true
  receiver_after_payment = rw contains-insert (ground arith)

  move_funds_lem : move_funds tx s ≡ (ok true, moved tx s)
  unfolding move_funds
  move_funds_lem = ground (
    arith,
    subscript_of_contains tx.sender (pos 0) s.balances has_sender,
    subscript_of_contains tx.receiver (pos 0)
        (insert tx.sender (get_or tx.sender (pos 0) s.balances -ℤ tx.amount) s.balances)
        receiver_after_payment,
    subscript_of_contains tx.sender (pos 0) s.nonces has_nonce,
  )

  check_accounts_lem : check_accounts tx s ≡ (
      if not (int_eq (nonce_of s tx.sender) tx.nonce)
      then (ok false, s)
      else if ltb_ℤ (balance_of s tx.sender) tx.amount
      then (ok false, s)
      else (ok true, moved tx s))
  unfolding check_accounts
  check_accounts_lem = ground (
    arith,
    subscript_of_contains tx.sender (pos 0) s.balances has_sender,
    subscript_of_contains tx.sender (pos 0) s.nonces has_nonce,
    move_funds_lem,
  )

-- The block number, the block hash and the reads of one account's balance or nonce are the same; the
-- tables may differ in entries with zero.
pub record SameView (s t : BlockchainState) : Type 0 where
  pub block_number : s.block_number ≡ t.block_number
  pub block_hash : s.block_hash ≡ t.block_hash
  pub balances : (a : Bytes) → balance_of s a ≡ balance_of t a
  pub nonces : (a : Bytes) → nonce_of s a ≡ nonce_of t a

pub SameView-refl : (s : BlockchainState) → SameView s s
SameView-refl s = record {
  block_number = refl;
  block_hash = refl;
  balances = λ a. refl;
  nonces = λ a. refl;
}

pub SameView-sym : {s t : BlockchainState} → SameView s t → SameView t s
SameView-sym v = record {
  block_number = sym v.block_number;
  block_hash = sym v.block_hash;
  balances = λ a. sym (v.balances a);
  nonces = λ a. sym (v.nonces a);
}

pub SameView-trans : {s t u : BlockchainState} → SameView s t → SameView t u → SameView s u
SameView-trans v w = record {
  block_number = v.block_number ∙ w.block_number;
  block_hash = v.block_hash ∙ w.block_hash;
  balances = λ a. v.balances a ∙ w.balances a;
  nonces = λ a. v.nonces a ∙ w.nonces a;
}

pub SameView-default_accounts :
    (tx : Transaction) (s : BlockchainState) → SameView (default_accounts tx s) s
SameView-default_accounts tx s = record {
  block_number = refl;
  block_hash = refl;
  balances = λ a. rw (get_or-setdefault, get_or-setdefault);
  nonces = λ a. rw get_or-setdefault;
}

-- The transaction is signed by its sender, its amount is not negative, its nonce is the sender's
-- and the sender has the amount.
pub record IsAcceptable ⦃c : Crypto⦄ (tx : Transaction) (s : BlockchainState) : Type 0 where
  pub valid : Transaction.validate_signature tx ≡ ok true
  pub nonneg : pos 0 ≤ℤ tx.amount
  pub in_turn : nonce_of s tx.sender ≡ tx.nonce
  pub covered : tx.amount ≤ℤ balance_of s tx.sender

-- The amount if the flag is set.
abbrev pub part : Bool → ℤ → ℤ
part true x = x
part false x = pos 0

-- `t` is `s` after the transaction, as far as balances and nonces are read.
pub record IsMoved (tx : Transaction) (s t : BlockchainState) : Type 0 where
  pub block_number : t.block_number ≡ s.block_number
  pub block_hash : t.block_hash ≡ s.block_hash
  pub balances :
      (a : Bytes)
      → balance_of t a
        ≡ balance_of s a -ℤ part (tx.sender == a) tx.amount +ℤ part (tx.receiver == a) tx.amount
  pub nonces : (a : Bytes) → nonce_of t a ≡ nonce_of s a +ℤ part (tx.sender == a) (pos 1)

moved_balance :
    (tx : Transaction) (s : BlockchainState) (a : Bytes)
    → balance_of (moved tx s) a
      ≡ balance_of s a -ℤ part (tx.sender == a) tx.amount +ℤ part (tx.receiver == a) tx.amount
moved_balance tx s a = grind (
  int_laws,
  get_or-insert,
  bytes_eq_iff tx.sender a,
  bytes_eq_iff tx.receiver a,
  bytes_eq_iff tx.sender tx.receiver,
)

moved_nonce :
    (tx : Transaction) (s : BlockchainState) (a : Bytes)
    → nonce_of (moved tx s) a ≡ nonce_of s a +ℤ part (tx.sender == a) (pos 1)
moved_nonce tx s a = grind (int_laws, get_or-insert, bytes_eq_iff tx.sender a)

pub IsMoved-SameView :
    {tx : Transaction} {s s' t : BlockchainState} → SameView s' s → IsMoved tx s' t → IsMoved tx s t
IsMoved-SameView v m = record {
  block_number = m.block_number ∙ v.block_number;
  block_hash = m.block_hash ∙ v.block_hash;
  balances = λ a. ground (arith, m.balances a, v.balances a);
  nonces = λ a. ground (arith, m.nonces a, v.nonces a);
}

moved-IsMoved : (tx : Transaction) (s : BlockchainState) → IsMoved tx s (moved tx s)
moved-IsMoved tx s = record {
  block_number = refl;
  block_hash = refl;
  balances = λ a. moved_balance tx s a;
  nonces = λ a. moved_nonce tx s a;
}

module _ ⦃c : Crypto⦄ (tx : Transaction) (s : BlockchainState) where
  abbrev accounts : BlockchainState
  accounts = default_accounts tx s

  checked : check_accounts tx accounts ≡ (
      if not (int_eq (nonce_of s tx.sender) tx.nonce)
      then (ok false, accounts)
      else if ltb_ℤ (balance_of s tx.sender) tx.amount
      then (ok false, accounts)
      else (ok true, moved tx accounts))
  checked =
      let view = SameView-default_accounts tx s in
      let step =
        check_accounts_lem tx accounts (has_sender_account) (has_receiver_account)
          (has_sender_nonce) in
      ground (arith, step, view.balances tx.sender, view.nonces tx.sender)
    where
      has_sender_account : contains tx.sender accounts.balances ≡ true
      has_sender_account = rw (contains-setdefault, contains-setdefault, ==_refl) (ground arith)

      has_receiver_account : contains tx.receiver accounts.balances ≡ true
      has_receiver_account = rw (contains-setdefault, ==_refl)

      has_sender_nonce : contains tx.sender accounts.nonces ≡ true
      has_sender_nonce = rw (contains-setdefault, ==_refl)

  -- Every branch of the method.
  pub apply_transaction_lem : apply_transaction tx s ≡ (elim (Transaction.validate_signature tx) [
    | err e ↦ (err e, s)
    | ok valid ↦
        if not valid || ltb_ℤ tx.amount (pos 0)
        then (ok false, s)
        else if not (int_eq (nonce_of s tx.sender) tx.nonce)
            || ltb_ℤ (balance_of s tx.sender) tx.amount
        then (ok false, accounts)
        else (ok true, moved tx accounts)
  ])
  unfolding apply_transaction
  apply_transaction_lem = ground (arith, checked)

  -- _apply_transaction returns True exactly for a transaction that is acceptable on the state.
  pub apply_transaction_accepts : ((apply_transaction tx s).0 ≡ ok true) ↔ IsAcceptable tx s
  apply_transaction_accepts =
      let step = apply_transaction_lem in
      (
        λ h. ground (arith, step, int_eq_iff (nonce_of s tx.sender) tx.nonce),
        λ h. ground (arith, step, int_eq_iff (nonce_of s tx.sender) tx.nonce),
      )

  accepted_state : IsAcceptable tx s → (apply_transaction tx s).1 ≡ moved tx accounts
  accepted_state h =
      ground (arith, apply_transaction_lem, int_eq_iff (nonce_of s tx.sender) tx.nonce)

  pub apply_transaction_states :
      ((apply_transaction tx s).1 ≡ s)
      ⊎ ((apply_transaction tx s).1 ≡ accounts)
      ⊎ ((apply_transaction tx s).1 ≡ moved tx accounts)
  apply_transaction_states = ground (arith, apply_transaction_lem)

  refused_state :
      (apply_transaction tx s).0 ≢ ok true
      → ((apply_transaction tx s).1 ≡ s) ⊎ ((apply_transaction tx s).1 ≡ accounts)
  refused_state h = ground (arith, apply_transaction_lem)

  -- A transaction that is not accepted, or makes _apply_transaction raise, changes no balance and
  -- no nonce that is read with zero as the default, nor the block number and hash.
  pub SameView-apply_transaction :
      (apply_transaction tx s).0 ≢ ok true → SameView (apply_transaction tx s).1 s
  SameView-apply_transaction h = elim (refused_state h) [
    | inl e ↦ rw e (SameView-refl s)
    | inr e ↦ rw e (SameView-default_accounts tx s)
  ]

  -- An acceptable transaction takes the amount from the sender, adds it to the receiver and counts
  -- the sender's nonce up; every other balance and nonce, the block number and the block hash stay.
  pub apply_transaction-IsMoved : IsAcceptable tx s → IsMoved tx s (apply_transaction tx s).1
  apply_transaction-IsMoved h =
      rw (accepted_state h)
        (IsMoved-SameView (SameView-default_accounts tx s) (moved-IsMoved tx accounts))

  -- Either the transaction is acceptable and True comes back, or no such read changes.
  pub apply_transaction_cases :
      (((apply_transaction tx s).0 ≡ ok true) × IsAcceptable tx s)
      ⊎ (((apply_transaction tx s).0 ≢ ok true) × SameView (apply_transaction tx s).1 s)
  apply_transaction_cases = elim (Result-cases (apply_transaction tx s).0) [
    | inl (true, e) ↦ inl (e, apply_transaction_accepts.0 e)
    | inl (false, e) ↦
        let h : (apply_transaction tx s).0 ≢ ok true = λ p. cc (e, p) in
        inr (h, SameView-apply_transaction h)
    | inr (x, e) ↦
        let h : (apply_transaction tx s).0 ≢ ok true = λ p. cc (e, p) in
        inr (h, SameView-apply_transaction h)
  ]
