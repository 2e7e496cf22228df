-- ===== src/Chain/State.antt =====
-- class BlockchainState, and the method Blockchain._apply_transaction.
use blockchain_workshop.Prelude.{
  [], Bool, true, false, not, Action, Bytes, ◌==◌, if◌then◌else◌, Bytes_eq,
}
use blockchain_workshop.Prelude.Int.{ℤ, pos, ◌+ℤ◌, ◌-ℤ◌, ltb_ℤ, ℤ_eq}
use blockchain_workshop.Prelude.Dict.{Dict, get_or, insert, setdefault, subscript}
use blockchain_workshop.Prelude.Actions.{pure, lift, reads, modify, ◌>>=◌, ◌>>◌}
use blockchain_workshop.Crypto.{Crypto}
use blockchain_workshop.Types.Transaction
use blockchain_workshop.Types.Transaction.{Transaction}

pub record BlockchainState : Type 0 where
  pub block_number : ℤ
  pub block_hash : Bytes
  pub balances : Dict Bytes ℤ
  pub nonces : Dict Bytes ℤ

-- BlockchainState(block_number)
abbrev pub new : ℤ → BlockchainState
new n = record { block_number = n; block_hash = []; balances = []; nonces = [] }

-- The three calls of setdefault.
abbrev pub default_accounts : Transaction → BlockchainState → BlockchainState
default_accounts tx s = record s {
  balances = setdefault tx.receiver (pos 0) (setdefault tx.sender (pos 0) s.balances);
  nonces = setdefault tx.sender (pos 0) s.nonces;
}

-- state.balances[a], and an assignment to it
abbrev read_balance : Bytes → Action BlockchainState ℤ
read_balance a = reads (λ s. subscript a s.balances)

abbrev write_balance : Bytes → ℤ → Action BlockchainState (Unit {0})
write_balance a v = modify (λ s. record s { balances = insert a v s.balances })

abbrev read_nonce : Bytes → Action BlockchainState ℤ
read_nonce a = reads (λ s. subscript a s.nonces)

abbrev write_nonce : Bytes → ℤ → Action BlockchainState (Unit {0})
write_nonce a v = modify (λ s. record s { nonces = insert a v s.nonces })

-- The three augmented assignments.
unfoldable pub move_funds : Transaction → Action BlockchainState Bool
move_funds tx = do
  from ← read_balance tx.sender
  write_balance tx.sender (from -ℤ tx.amount)
  to ← read_balance tx.receiver
  write_balance tx.receiver (to +ℤ tx.amount)
  nonce ← read_nonce tx.sender
  write_nonce tx.sender (nonce +ℤ pos 1)
  pure true

unfoldable pub check_accounts : Transaction → Action BlockchainState Bool
check_accounts tx = do
  nonce ← read_nonce tx.sender
  if not (nonce == tx.nonce) then pure false else do
    balance ← read_balance tx.sender
    if ltb_ℤ balance tx.amount then pure false else move_funds tx

module _ ⦃c : Crypto⦄ where
  unfoldable pub apply_transaction : Transaction → Action BlockchainState Bool
  apply_transaction tx = do
    valid ← lift (Transaction.validate_signature tx)
    if not valid
        then pure false
        else if ltb_ℤ tx.amount (pos 0)
        then pure false
        else do modify (default_accounts tx); check_accounts tx

-- state.balances.get(a, 0) and state.nonces.get(a, 0), by which the program reads one account. The
-- items of the tables are read besides: to_json writes them, and the command line prints them.
abbrev pub balance_of : BlockchainState → Bytes → ℤ
balance_of s a = get_or a (pos 0) s.balances

abbrev pub nonce_of : BlockchainState → Bytes → ℤ
nonce_of s a = get_or a (pos 0) s.nonces
