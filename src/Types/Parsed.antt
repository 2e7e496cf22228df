-- ===== src/Types/Parsed.antt =====
-- What every block that deserialize returns satisfies: it can be written and read back.
use mathlib.Core.Path.{subst}
use blockchain_workshop.Prelude.{
  [], ◌∷◌, List, ◌≡◌, refl, true, ok, arith, Bytes, Text, ap, ◌∙◌, sym, All, IsBytes,
  returned_value,
}
use blockchain_workshop.Text.Decimal.{int}
use blockchain_workshop.Text.Hex.{fromhex, fromhex-IsBytes}
use blockchain_workshop.Text.Split.{split}
use blockchain_workshop.Crypto.{Crypto}
use blockchain_workshop.Types.Transaction
use blockchain_workshop.Types.Transaction.{Transaction, is_signed}
use blockchain_workshop.Types.Block
use blockchain_workshop.Types.Block.{Block}
use blockchain_workshop.Types.RoundTrip.{IsWellFormed, block_round_trip}

-- The byte strings hold bytes; whether there is a signature is another matter.
record HoldsBytes (tx : Transaction) : Type 0 where
  sender_bytes : IsBytes tx.sender
  receiver_bytes : IsBytes tx.receiver
  sig_bytes : IsBytes tx.sig

fields_read :
    (ps : List Text) (tx : Transaction)
    → Transaction.parse_fields ps ≡ ok tx
    → (a : Text) × (b : Text) × (f : Text) × (fromhex a ≡ ok tx.sender)
      × (fromhex b ≡ ok tx.receiver)
      × (fromhex f ≡ ok tx.sig)
unfolding Transaction.parse_fields
fields_read (a ∷ b ∷ d ∷ e ∷ f ∷ []) tx h = (a, b, f, ground arith, ground arith, ground arith)
fields_read _ tx h = cc

deserialize-HoldsBytes :
    (text : Text) (tx : Transaction) → Transaction.deserialize text ≡ ok tx → HoldsBytes tx
unfolding Transaction.deserialize
deserialize-HoldsBytes text tx h =
    let (a, b, f, ha, hb, hf) = fields_read (split b',' text) tx h in
    record {
      sender_bytes = fromhex-IsBytes a tx.sender ha;
      receiver_bytes = fromhex-IsBytes b tx.receiver hb;
      sig_bytes = fromhex-IsBytes f tx.sig hf;
    }

deserialize_all-HoldsBytes :
    (ps : List Text) (txs : List Transaction)
    → Block.deserialize_all ps ≡ ok txs
    → All HoldsBytes txs
unfolding Block.deserialize_all
deserialize_all-HoldsBytes [] txs h = let e : [] ≡ txs = cc h in subst (All HoldsBytes) e tt
deserialize_all-HoldsBytes (p ∷ ps) txs h =
    let (tx, ht, h1) = returned_value (Transaction.deserialize p) _ h in
    let (rest, hr, h2) = returned_value (Block.deserialize_all ps) _ h1 in
    let e : tx ∷ rest ≡ txs = cc h2 in
    subst (All HoldsBytes) e (deserialize-HoldsBytes p tx ht, deserialize_all-HoldsBytes ps rest hr)

-- Only signed transactions can be written.
signed_of_serialize :
    (tx : Transaction) (text : Text) → Transaction.serialize tx ≡ ok text → is_signed tx.sig ≡ true
unfolding Transaction.serialize
signed_of_serialize tx text h = ground arith

serialize_all-IsWellFormed :
    (txs : List Transaction) (text : Text)
    → All HoldsBytes txs
    → Block.serialize_all txs ≡ ok text
    → All IsWellFormed txs
unfolding Block.serialize_all
serialize_all-IsWellFormed [] text h e = tt
serialize_all-IsWellFormed (tx ∷ txs) text h e =
    let (t, ht, h1) = returned_value (Transaction.serialize tx) _ e in
    let (rest, hr, h2) = returned_value (Block.serialize_all txs) _ h1 in
    (
      record {
        sender_bytes = h.0.sender_bytes;
        receiver_bytes = h.0.receiver_bytes;
        sig_bytes = h.0.sig_bytes;
        has_sig = signed_of_serialize tx t ht;
      },
      serialize_all-IsWellFormed txs rest h.1 hr,
    )

module _ ⦃c : Crypto⦄ where
  -- The block carries its own hash, and everything in it can be written and read back.
  pub record IsProper (b : Block) : Type 0 where
    pub hashed : Block.calculate_hash b ≡ ok b
    pub parent_bytes : IsBytes b.parent_hash
    pub coinbase_bytes : IsBytes b.coinbase
    pub transactions : All IsWellFormed b.transactions

  -- Calculating the hash changes nothing else, and nothing at all the second time.
  pub calculate_hash_lem :
      (b b' : Block)
      → Block.calculate_hash b ≡ ok b'
      → (text : Text) × (Block.serialize b ≡ ok text) × (b' ≡ record b { hash = c.sha256 text })
  unfolding Block.calculate_hash
  calculate_hash_lem b b' h =
      let (text, ht, e) = returned_value (Block.serialize b) _ h in (text, ht, cc e)

  same_text : (b : Block) (h : Bytes) → Block.serialize (record b { hash = h }) ≡ Block.serialize b
  unfolding Block.serialize
  same_text b h = refl

  pub calculate_hash_idem :
      (b b' : Block) → Block.calculate_hash b ≡ ok b' → Block.calculate_hash b' ≡ ok b'
  unfolding Block.calculate_hash
  calculate_hash_idem b b' h =
      let (text, ht, e) = calculate_hash_lem b b' h in
      rw e (ground (arith, same_text b (c.sha256 text), ht))

  -- The text of a block of proper parts is read back as the same block.
  pub IsProper-deserialize :
      (b : Block)
      → IsProper b
      → (text : Text) × (Block.serialize b ≡ ok text)
        × (Block.deserialize text ≡ ok b)
        × (b.hash ≡ c.sha256 text)
  IsProper-deserialize b p =
      let (text, ht, e) = calculate_hash_lem b b p.hashed in
      let eh : b.hash ≡ c.sha256 text = ap (λ (x : Block). x.hash) e in
      (
        text,
        ht,
        block_round_trip b text p.parent_bytes p.coinbase_bytes p.transactions ht ∙ ap ok (sym e),
        eh,
      )

  block_fields :
      (ps : List Text) (b : Block)
      → Block.parse_fields ps ≡ ok b
      → (parent : Text) × (coinbase : Text) × (rest : List Text) × (b0 : Block) × (fromhex parent
          ≡ ok b0.parent_hash)
        × (fromhex coinbase ≡ ok b0.coinbase)
        × (Block.deserialize_all rest ≡ ok b0.transactions)
        × (Block.calculate_hash b0 ≡ ok b)
  unfolding Block.parse_fields
  block_fields (n ∷ k ∷ p ∷ m ∷ txs) b h =
      let (n', hn, h1) = returned_value (int n) _ h in
      let (k', hk, h2) = returned_value (int k) _ h1 in
      let (p', hp, h3) = returned_value (fromhex p) _ h2 in
      let (m', hm, h4) = returned_value (fromhex m) _ h3 in
      let (ts, ht, h5) = returned_value (Block.deserialize_all txs) _ h4 in
      (p, m, txs, _, hp, hm, ht, h5)
  block_fields _ b h = cc

  text_of_transactions :
      (b : Block) (text : Text)
      → Block.serialize b ≡ ok text
      → (rest : Text) × (Block.serialize_all b.transactions ≡ ok rest)
  unfolding Block.serialize
  text_of_transactions b text h =
      let (rest, hr, e) = returned_value (Block.serialize_all b.transactions) _ h in (rest, hr)

  IsProper-of_parts :
      (b0 b : Block) (p m : Text) (rest : List Text)
      → fromhex p ≡ ok b0.parent_hash
      → fromhex m ≡ ok b0.coinbase
      → Block.deserialize_all rest ≡ ok b0.transactions
      → Block.calculate_hash b0 ≡ ok b
      → IsProper b
  IsProper-of_parts b0 b p m rest hp hm hr hh =
      let (text, ht, e) = calculate_hash_lem b0 b hh in
      let (tail, htail) = text_of_transactions b0 text ht in
      record {
        hashed = calculate_hash_idem b0 b hh;
        parent_bytes = rw e (fromhex-IsBytes p b0.parent_hash hp);
        coinbase_bytes = rw e (fromhex-IsBytes m b0.coinbase hm);
        transactions = rw e (
            serialize_all-IsWellFormed b0.transactions tail
              (deserialize_all-HoldsBytes rest b0.transactions hr) htail);
      }

  -- Every block that deserialize returns is proper: it carries its own hash, its parent hash and
  -- coinbase hold bytes, and its transactions are signed and hold bytes.
  pub deserialize-IsProper : (text : Text) (b : Block) → Block.deserialize text ≡ ok b → IsProper b
  unfolding Block.deserialize
  deserialize-IsProper text b h =
      let (p, m, rest, b0, hp, hm, hr, hh) = block_fields (split b':' text) b h in
      IsProper-of_parts b0 b p m rest hp hm hr hh
