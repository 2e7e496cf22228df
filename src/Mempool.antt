-- ===== src/Mempool.antt =====
-- class Mempool of bcws/blockchain.py. The clock is an argument: a time is a number of
-- microseconds. What the pool hands to the gossip layer is a list of broadcasts.
pub mod Invariant
pub mod Expiry
use blockchain_workshop.Prelude.{
  ℕ, ◌+◌, ◌*◌, [], ◌∷◌, ◌++◌, List, Bool, true, false, Result, Action, Bytes, Text, codes, ltb,
  if◌then◌else◌, Bytes_eq,
}
use blockchain_workshop.Prelude.Dict.{Dict, values, insert, remove, subscript}
use blockchain_workshop.Prelude.Actions.{pure, lift, reads, modify, ◌>>=◌, ◌>>◌}
use blockchain_workshop.Crypto.{Crypto}
use blockchain_workshop.Types.Transaction
use blockchain_workshop.Types.Transaction.{Transaction}

pub record Mempool : Type 0 where
  pub transactions : Dict Bytes Transaction
  pub last_seen : Dict Bytes ℕ

-- Mempool(gossip)
abbrev pub new : Mempool
new = record { transactions = []; last_seen = [] }

-- A call of Gossip.broadcast.
pub record Broadcast : Type 0 where
  pub kind : Text
  pub payload : Bytes

abbrev pub second : ℕ
second = 1_000_000

unfoldable pub get_transactions : Mempool → List Transaction
get_transactions m = values m.transactions

module _ ⦃c : Crypto⦄ where
  unfoldable pub evict_transaction : Transaction → Action Mempool (Unit {0})
  evict_transaction tx = do
    tx_hash ← lift (Transaction.hash tx)
    modify (λ m. record {
      transactions = remove tx_hash m.transactions;
      last_seen = remove tx_hash m.last_seen;
    })

  unfoldable pub add_transaction : ℕ → Transaction → Action Mempool (Unit {0})
  add_transaction now tx = do
    tx_hash ← lift (Transaction.hash tx)
    modify (λ m. record {
      transactions = insert tx_hash tx m.transactions;
      last_seen = insert tx_hash now m.last_seen;
    })

  -- The broadcast is made before the pool takes the transaction.
  unfoldable pub announce_transaction :
      ℕ → Transaction → Action (Mempool × List Broadcast) (Unit {0})
  unfolding add_transaction
  announce_transaction now tx = do
    text ← lift (Transaction.serialize tx)
    modify (λ s. (s.0, s.1 ++ record { kind = codes "bc:new_tx"; payload = text } ∷ []))
    λ s. let (r, m) = add_transaction now tx s.0 in (r, (m, s.1))

  -- The gossip handler of "bc:new_tx"; what it returns says whether the message goes on.
  unfoldable pub handle_new_tx : ℕ → Bytes → Action Mempool Bool
  handle_new_tx now message = do
    tx ← lift (Transaction.deserialize message)
    valid ← lift (Transaction.validate_signature tx)
    if valid then (add_transaction now tx >> pure true) else pure false

  -- One round of the loop in _cleanup_loop.
  unfoldable pub expire : ℕ → Transaction → Action Mempool (Unit {0})
  expire now tx = do
    tx_hash ← lift (Transaction.hash tx)
    seen ← reads (λ m. subscript tx_hash m.last_seen)
    if ltb (seen + 60 * second) now then evict_transaction tx else pure tt

  unfoldable pub expire_all : ℕ → List Transaction → Action Mempool (Unit {0})
  expire_all now [] = pure tt
  expire_all now (tx ∷ txs) = expire now tx >> expire_all now txs

  -- The loop runs over a copy of the transactions.
  unfoldable pub cleanup_loop : ℕ → Action Mempool (Unit {0})
  cleanup_loop now m = expire_all now (get_transactions m) m
