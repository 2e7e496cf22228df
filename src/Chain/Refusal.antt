-- ===== src/Chain/Refusal.antt =====
-- What _apply_transaction leaves of the tables of the state when it does not accept: the calls of
-- setdefault stand in front of the tests of the nonce and the balance, so that the items, which
-- to_json and the printed state go through, may become more.
use blockchain_workshop.Prelude.{◌≡◌, ◌⊎◌, some, Bytes, Bytes_eq}
use blockchain_workshop.Prelude.Int.{pos}
use blockchain_workshop.Prelude.Dict.{Dict, get_or, lookup}
use blockchain_workshop.Crypto.{Crypto}
use blockchain_workshop.Types.Transaction
use blockchain_workshop.Types.Transaction.{Transaction}
use blockchain_workshop.Chain.State.{BlockchainState}

-- The accounts of the transaction have entries, with what they had or with zero, and nothing else
-- is different.
pub record HasZerosAdded (tx : Transaction) (s t : BlockchainState) : Type 0 where
  pub block_number : t.block_number ≡ s.block_number
  pub block_hash : t.block_hash ≡ s.block_hash
  pub sender : lookup tx.sender t.balances ≡ some (get_or tx.sender (pos 0) s.balances)
  pub receiver : lookup tx.receiver t.balances ≡ some (get_or tx.receiver (pos 0) s.balances)
  pub other_balances :
      (a : Bytes)
      → (tx.sender ≡ a) ⊎ (tx.receiver ≡ a) ⊎ (lookup a t.balances ≡ lookup a s.balances)
  pub sender_nonce : lookup tx.sender t.nonces ≡ some (get_or tx.sender (pos 0) s.nonces)
  pub other_nonces : (a : Bytes) → (tx.sender ≡ a) ⊎ (lookup a t.nonces ≡ lookup a s.nonces)
