-- ===== src/Types/Block.antt =====
-- class Block of bcws/blockchain_types.py. A method that writes the field `hash` returns the block.
use blockchain_workshop.Prelude.{
  ℕ, zero, suc, [], ◌∷◌, ◌++◌, List, Bool, true, false, Result, ok, err, value_error, ◌>>=◌, Bytes,
  Text, nat_eq, ◌&&◌,
}
use blockchain_workshop.Prelude.Int.{ℤ, pos}
use blockchain_workshop.Text.Decimal.{str, int}
use blockchain_workshop.Text.Hex.{hex, fromhex}
use blockchain_workshop.Text.Split.{split}
use blockchain_workshop.Crypto.{Crypto}
use blockchain_workshop.Types.Transaction
use blockchain_workshop.Types.Transaction.{Transaction}

pub record Block : Type 0 where
  pub number : ℤ
  pub nonce : ℤ
  pub parent_hash : Bytes
  pub coinbase : Bytes
  pub transactions : List Transaction
  pub hash : Bytes

-- Block()
abbrev pub new : Block
new = record {
  number = pos 0;
  nonce = pos 0;
  parent_hash = [];
  coinbase = [];
  transactions = [];
  hash = [];
}

-- The loop over the transactions, each behind a colon.
unfoldable pub serialize_all : List Transaction → Result Text
serialize_all [] = ok []
serialize_all (tx ∷ txs) = do
  text ← Transaction.serialize tx
  rest ← serialize_all txs
  ok (b':' ∷ (text ++ rest))

unfoldable pub serialize : Block → Result Text
serialize b = do
  rest ← serialize_all b.transactions
  ok (
      str b.number
      ++ (b':'
          ∷ (str b.nonce ++ (b':' ∷ (hex b.parent_hash ++ (b':' ∷ (hex b.coinbase ++ rest)))))))

unfoldable pub deserialize_all : List Text → Result (List Transaction)
deserialize_all [] = ok []
deserialize_all (p ∷ ps) = do
  tx ← Transaction.deserialize p
  txs ← deserialize_all ps
  ok (tx ∷ txs)

-- text.startswith("0" * n)
unfoldable pub starts_with_zeros : ℕ → Text → Bool
starts_with_zeros zero s = true
starts_with_zeros (suc n) [] = false
starts_with_zeros (suc n) (c ∷ s) = nat_eq c b'0' && starts_with_zeros n s

module _ ⦃c : Crypto⦄ where
  unfoldable pub calculate_hash : Block → Result Block
  calculate_hash b = do data' ← serialize b; ok (record b { hash = c.sha256 data' })

  -- The block comes back with its hash calculated anew.
  unfoldable pub has_difficulty : ℕ → Block → Result (Bool × Block)
  has_difficulty difficulty b = do
    b' ← calculate_hash b
    ok (starts_with_zeros difficulty (hex b'.hash), b')

  unfoldable pub parse_fields : List Text → Result Block
  parse_fields (number ∷ nonce ∷ parent ∷ coinbase ∷ txs) = do
    n ← int number
    k ← int nonce
    p ← fromhex parent
    m ← fromhex coinbase
    ts ← deserialize_all txs
    calculate_hash (record {
      number = n;
      nonce = k;
      parent_hash = p;
      coinbase = m;
      transactions = ts;
      hash = [];
    })
  parse_fields _ = err value_error

  unfoldable pub deserialize : Text → Result Block
  unfolding parse_fields
  deserialize data' = parse_fields (split b':' data')
