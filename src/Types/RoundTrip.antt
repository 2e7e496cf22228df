-- ===== src/Types/RoundTrip.antt =====
-- A transaction or a block is read back from its text, as bcws/blockchain_types.py writes it.
use blockchain_workshop.Prelude.{
  [], ◌∷◌, ◌++◌, append_assoc, append-nil, List, ◌≡◌, refl, inl, inr, ok, arith, Bytes, Text, ap,
  ◌∙◌, All, All-append, Lacks, IsBytes, true, sym, returned_value,
}
use blockchain_workshop.Text.Decimal.{str, int-str, str-Lacks}
use blockchain_workshop.Text.Hex.{hex, fromhex-hex, hex-Lacks}
use blockchain_workshop.Text.Split.{split, split_at, split_lacking}
use blockchain_workshop.Crypto.{Crypto}
use blockchain_workshop.Types.Transaction
use blockchain_workshop.Types.Transaction.{Transaction, is_signed}
use blockchain_workshop.Types.Block
use blockchain_workshop.Types.Block.{Block}

-- The byte strings hold bytes, and there is a signature.
pub record IsWellFormed (tx : Transaction) : Type 0 where
  pub sender_bytes : IsBytes tx.sender
  pub receiver_bytes : IsBytes tx.receiver
  pub sig_bytes : IsBytes tx.sig
  pub has_sig : is_signed tx.sig ≡ true

-- No part of a transaction's text holds a comma, and the text holds no colon.
split_fields :
    (tx : Transaction)
    → split b',' (Transaction.data_to_sign tx ++ (b',' ∷ hex tx.sig))
      ≡ hex tx.sender ∷ hex tx.receiver ∷ str tx.nonce ∷ str tx.amount ∷ hex tx.sig ∷ []
unfolding Transaction.data_to_sign
split_fields tx = simp append_assoc (
    rw (
      split_at b',' (hex tx.sender) _ (hex-Lacks b',' tx.sender (inl (omega arith))),
      split_at b',' (hex tx.receiver) _ (hex-Lacks b',' tx.receiver (inl (omega arith))),
      split_at b',' (str tx.nonce) _ (str-Lacks b',' tx.nonce (inl (omega arith))),
      split_at b',' (str tx.amount) _ (str-Lacks b',' tx.amount (inl (omega arith))),
      split_lacking b',' (hex tx.sig) (hex-Lacks b',' tx.sig (inl (omega arith))),
    ))

no_colon : (tx : Transaction) → Lacks b':' (Transaction.data_to_sign tx ++ (b',' ∷ hex tx.sig))
unfolding Transaction.data_to_sign
no_colon tx =
    All-append _ _ _
      (All-append _ _ _ (hex-Lacks b':' tx.sender (inr refl)) (
        omega arith,
        All-append _ _ _ (hex-Lacks b':' tx.receiver (inr refl)) (
          omega arith,
          All-append _ _ _ (str-Lacks b':' tx.nonce (inr refl))
              (omega arith, str-Lacks b':' tx.amount (inr refl)),
        ),
      ))
      (omega arith, hex-Lacks b':' tx.sig (inr refl))

text_of_serialize :
    (tx : Transaction) (text : Text)
    → Transaction.serialize tx ≡ ok text
    → text ≡ Transaction.data_to_sign tx ++ (b',' ∷ hex tx.sig)
unfolding Transaction.serialize
text_of_serialize tx text h = ground arith

-- A transaction that holds bytes and is signed is read back from its text.
pub transaction_round_trip :
    (tx : Transaction) (text : Text)
    → IsWellFormed tx
    → Transaction.serialize tx ≡ ok text
    → Transaction.deserialize text ≡ ok tx
unfolding Transaction.deserialize
transaction_round_trip tx text w h = rw (
  text_of_serialize tx text h,
  split_fields tx,
  fromhex-hex tx.sender w.sender_bytes,
  fromhex-hex tx.receiver w.receiver_bytes,
  int-str tx.nonce,
  int-str tx.amount,
  fromhex-hex tx.sig w.sig_bytes,
)

serialize-Lacks :
    (tx : Transaction) (text : Text) → Transaction.serialize tx ≡ ok text → Lacks b':' text
serialize-Lacks tx text h = rw (text_of_serialize tx text h) (no_colon tx)

-- The parts behind the fourth one are the texts of the transactions.
split_tail :
    (p : Text) (txs : List Transaction) (rest : Text)
    → Lacks b':' p
    → All IsWellFormed txs
    → Block.serialize_all txs ≡ ok rest
    → (parts : List Text) × (split b':' (p ++ rest) ≡ p ∷ parts)
      × (Block.deserialize_all parts ≡ ok txs)
unfolding Block.serialize_all Block.deserialize_all
split_tail p [] rest l w h =
    let e : rest ≡ [] = ground arith in ([], rw (e, append-nil p) (split_lacking b':' p l), refl)
split_tail p (tx ∷ txs) rest l w h =
    let (text, ht, h') = returned_value (Transaction.serialize tx) _ h in
    let (tail, hs, h2) = returned_value (Block.serialize_all txs) _ h' in
    let (parts, hp, hd) = split_tail text txs tail (serialize-Lacks tx text ht) w.1 hs in
    let e : b':' ∷ (text ++ tail) ≡ rest = ground arith in
    (
      text ∷ parts,
      ap (λ r. split b':' (p ++ r)) (sym e) ∙ split_at b':' p (text ++ tail) l ∙ ap (◌∷◌ p) hp,
      rw (transaction_round_trip tx text w.0 ht, hd),
    )

-- The text of a block does not depend on the hash that the object carries.
same_text : (b : Block) (h : Bytes) → Block.serialize (record b { hash = h }) ≡ Block.serialize b
unfolding Block.serialize
same_text b h = refl

parts_of_serialize :
    (b : Block) (text : Text)
    → Block.serialize b ≡ ok text
    → (rest : Text) × (Block.serialize_all b.transactions ≡ ok rest)
      × ((str b.number
            ++ (b':'
                ∷ (str b.nonce
                    ++ (b':' ∷ (hex b.parent_hash ++ (b':' ∷ (hex b.coinbase ++ rest)))))))
          ≡ text)
unfolding Block.serialize
parts_of_serialize b text h =
    let (rest, hs, e) = returned_value (Block.serialize_all b.transactions) _ h in
    (rest, hs, ground arith)

-- A block whose parent hash, coinbase and transactions hold bytes, with signed transactions, is
-- read back from its text, with the hash of that text.
pub block_round_trip :
    ⦃c : Crypto⦄ (b : Block) (text : Text)
    → IsBytes b.parent_hash
    → IsBytes b.coinbase
    → All IsWellFormed b.transactions
    → Block.serialize b ≡ ok text
    → Block.deserialize text ≡ ok (record b { hash = c.sha256 text })
unfolding Block.deserialize Block.calculate_hash
block_round_trip ⦃c⦄ b text hp hc w h =
    let (rest, hs, head) = parts_of_serialize b text h in
    let (parts, split_coinbase, read) =
      split_tail (hex b.coinbase) b.transactions rest (hex-Lacks b':' b.coinbase (inr refl)) w hs in
    let fields : split b':' text
        ≡ str b.number ∷ str b.nonce ∷ hex b.parent_hash ∷ hex b.coinbase ∷ parts =
      rw (
        ← head,
        split_at b':' (str b.number) _ (str-Lacks b':' b.number (inr refl)),
        split_at b':' (str b.nonce) _ (str-Lacks b':' b.nonce (inr refl)),
        split_at b':' (hex b.parent_hash) _ (hex-Lacks b':' b.parent_hash (inr refl)),
        split_coinbase,
      ) in
    rw
      (
        fields,
        int-str b.number,
        int-str b.nonce,
        fromhex-hex b.parent_hash hp,
        fromhex-hex b.coinbase hc,
        read,
      )
      (rw (same_text b []) (rw h))
