-- ===== src/Types/Transaction.antt =====
-- class Transaction of bcws/blockchain_types.py.
use blockchain_workshop.Prelude.{
  [], ◌∷◌, ◌++◌, List, Bool, true, false, Result, ok, err, value_error, assertion_error, ◌>>=◌,
  Bytes, Text,
}
use blockchain_workshop.Prelude.Int.{ℤ}
use blockchain_workshop.Text.Decimal.{str, int}
use blockchain_workshop.Text.Hex.{hex, fromhex}
use blockchain_workshop.Text.Split.{split}
use blockchain_workshop.Crypto
use blockchain_workshop.Crypto.{Crypto}

pub record Transaction : Type 0 where
  pub sender : Bytes
  pub receiver : Bytes
  pub nonce : ℤ
  pub amount : ℤ
  pub sig : Bytes

-- bool(b) of a byte string
abbrev pub is_signed : Bytes → Bool
is_signed [] = false
is_signed (b ∷ bs) = true

unfoldable pub data_to_sign : Transaction → Text
data_to_sign tx =
    hex tx.sender ++ (b',' ∷ (hex tx.receiver ++ (b',' ∷ (str tx.nonce ++ (b',' ∷ str tx.amount)))))

unfoldable pub serialize : Transaction → Result Text
serialize tx = elim (is_signed tx.sig) [
  | true ↦ ok (data_to_sign tx ++ (b',' ∷ hex tx.sig))
  | false ↦ err assertion_error
]

-- The tuple assignment raises ValueError unless there are five parts.
unfoldable pub parse_fields : List Text → Result Transaction
parse_fields (sender ∷ receiver ∷ nonce ∷ amount ∷ sig ∷ []) = do
  s ← fromhex sender
  r ← fromhex receiver
  n ← int nonce
  a ← int amount
  g ← fromhex sig
  ok (record { sender = s; receiver = r; nonce = n; amount = a; sig = g })
parse_fields _ = err value_error

unfoldable pub deserialize : Text → Result Transaction
unfolding parse_fields
deserialize data' = parse_fields (split b',' data')

module _ ⦃c : Crypto⦄ where
  unfoldable pub sign : c.SigningKey → Transaction → Transaction
  sign k tx = record tx { sig = Crypto.sign k (data_to_sign tx) }

  -- False for a wrong signature; a missing one and a malformed sender raise.
  unfoldable pub validate_signature : Transaction → Result Bool
  validate_signature tx = elim (is_signed tx.sig) [
    | true ↦ do key ← Crypto.public_key tx.sender; ok (Crypto.verify key (data_to_sign tx) tx.sig)
    | false ↦ err assertion_error
  ]

  unfoldable pub hash : Transaction → Result Bytes
  hash tx = do data' ← serialize tx; ok (c.sha256 data')
