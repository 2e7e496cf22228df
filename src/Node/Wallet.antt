-- ===== src/Node/Wallet.antt =====
-- send_transaction of class BlockchainNode, and the actions "send", "balance" and "nonce" of the
-- command line (function blockchain of bcws/__main__.py). What is typed is an argument.
use blockchain_workshop.Prelude.{
  ℕ, [], ◌∷◌, ◌++◌, ◌≡◌, refl, ap, ◌∙◌, true, some, ok, Action, Bytes, Text, ==_refl, Bytes_eq,
}
use blockchain_workshop.Prelude.Int.{ℤ, pos, negsuc, ◌≤ℤ◌}
use blockchain_workshop.Prelude.Dict.{lookup, lookup-insert}
use blockchain_workshop.Prelude.Actions.{lift, reads, ◌>>=◌, >>=-eq-returned}
use blockchain_workshop.Text.Hex.{hex, fromhex}
use blockchain_workshop.Text.Decimal.{int}
use blockchain_workshop.Crypto.{Crypto, CryptoLaws, public_bytes, sign}
use blockchain_workshop.Types.Transaction
use blockchain_workshop.Types.Transaction.{Transaction, is_signed}
use blockchain_workshop.Types.Signing.{signed, validate_signature-sign}
use blockchain_workshop.Mempool.{announce_transaction, add_transaction}
use blockchain_workshop.Chain.State.{BlockchainState, balance_of, nonce_of}
use blockchain_workshop.Chain.Transfer.{IsAcceptable}
use blockchain_workshop.Disk.{Json}
use blockchain_workshop.Canonical.{get_state_at}
use blockchain_workshop.Node.{get_balance, get_nonce}
use blockchain_workshop.Node.Producer.{Producer}

-- Transaction()
abbrev pub blank : Transaction
blank = record { sender = []; receiver = []; nonce = pos 0; amount = pos 0; sig = [] }

module _ ⦃c : Crypto⦄ (json : Json) where
  unfoldable pub send_transaction : ℕ → Transaction → Action Producer (Unit {0})
  send_transaction now tx p =
      let (r, s) = announce_transaction now tx (p.mempool, []) in
      (r, record p { mempool = s.0; broadcasts = s.1 ++ p.broadcasts })

  -- The transaction of the action "send".
  unfoldable pub filled : c.SigningKey → ℤ → Bytes → ℤ → Transaction
  filled pk nonce receiver amount = Transaction.sign pk (record blank {
    nonce = nonce;
    sender = public_bytes pk;
    receiver = receiver;
    amount = amount;
  })

  unfoldable pub send : ℕ → c.SigningKey → Text → Text → Action Producer (Unit {0})
  send now pk receiver_text amount_text = do
    amount ← lift (int amount_text)
    nonce ← reads (λ p. get_nonce json (public_bytes pk) (negsuc 0) p.canonicaliser)
    receiver ← lift (fromhex receiver_text)
    send_transaction now (filled pk nonce receiver amount)

  -- An empty text stands for the wallet's own address.
  unfoldable pub address_of : c.SigningKey → Text → Text
  address_of pk [] = hex (public_bytes pk)
  address_of pk (b ∷ bs) = b ∷ bs

  unfoldable pub show_balance : c.SigningKey → Text → Action Producer ℤ
  show_balance pk text = do
    address ← lift (fromhex (address_of pk text))
    reads (λ p. get_balance json address (negsuc 0) p.canonicaliser)

  unfoldable pub show_nonce : c.SigningKey → Text → Action Producer ℤ
  show_nonce pk text = do
    address ← lift (fromhex (address_of pk text))
    reads (λ p. get_nonce json address (negsuc 0) p.canonicaliser)

  serialized :
      (tx : Transaction)
      → is_signed tx.sig ≡ true
      → (text : Text) × (Transaction.serialize tx ≡ ok text)
  unfolding Transaction.serialize
  serialized tx e =
      (Transaction.data_to_sign tx ++ b',' ∷ hex tx.sig, rw (Transaction.serialize, e) refl)

  hashed :
      (tx : Transaction) (text : Text)
      → Transaction.serialize tx ≡ ok text
      → Transaction.hash tx ≡ ok (c.sha256 text)
  unfolding Transaction.hash
  hashed tx text e = rw e refl

  -- A signed transaction stands in the pool behind send_transaction.
  send_transaction_lem :
      (now : ℕ) (tx : Transaction) (p : Producer)
      → is_signed tx.sig ≡ true
      → ((send_transaction now tx p).0 ≡ ok tt)
        × (h : Bytes) × (Transaction.hash tx ≡ ok h)
        × (lookup h (send_transaction now tx p).1.mempool.transactions ≡ some tx)
  unfolding send_transaction announce_transaction add_transaction
  send_transaction_lem now tx p e =
      let (text, written) = serialized tx e in
      let filed = hashed tx text written in
      rw (send_transaction, announce_transaction, written, add_transaction, filed)
        (
          refl,
          c.sha256 text,
          refl,
          rw
              (
                lookup-insert (c.sha256 text) (c.sha256 text) tx p.mempool.transactions,
                ==_refl (c.sha256 text),
              )
              refl,
        )

  filled-is_signed :
      (laws : CryptoLaws c) (pk : c.SigningKey) (nonce : ℤ) (receiver : Bytes) (amount : ℤ)
      → is_signed (filled pk nonce receiver amount).sig ≡ true
  unfolding filled Transaction.sign sign
  filled-is_signed laws pk nonce receiver amount = signed laws _ (laws.sign_nonempty pk _)

  filled-IsAcceptable :
      (laws : CryptoLaws c) (pk : c.SigningKey) (receiver : Bytes) (amount : ℤ)
      (s : BlockchainState)
      → pos 0 ≤ℤ amount
      → amount ≤ℤ balance_of s (public_bytes pk)
      → IsAcceptable (filled pk (nonce_of s (public_bytes pk)) receiver amount) s
  unfolding filled Transaction.sign
  filled-IsAcceptable laws pk receiver amount s nonneg covered = record {
    valid =
        (validate_signature-sign laws pk
          (record blank {
            nonce = nonce_of s (public_bytes pk);
            sender = public_bytes pk;
            receiver = receiver;
            amount = amount;
          })
          refl).0;
    nonneg = nonneg;
    in_turn = refl;
    covered = covered;
  }

  nonce_read :
      (address : Bytes) (p : Producer) (s : BlockchainState)
      → get_state_at json (negsuc 0) p.canonicaliser ≡ ok s
      → get_nonce json address (negsuc 0) p.canonicaliser ≡ ok (nonce_of s address)
  unfolding get_nonce
  nonce_read address p s e = rw (get_nonce, e) refl

  -- What is typed is read, and the transaction goes out.
  send_runs :
      (now : ℕ) (pk : c.SigningKey) (receiver_text amount_text : Text) (receiver : Bytes)
      (amount : ℤ) (p : Producer) (s : BlockchainState)
      → int amount_text ≡ ok amount
      → fromhex receiver_text ≡ ok receiver
      → get_state_at json (negsuc 0) p.canonicaliser ≡ ok s
      → send now pk receiver_text amount_text p
        ≡ send_transaction now (filled pk (nonce_of s (public_bytes pk)) receiver amount) p
  unfolding send
  send_runs now pk receiver_text amount_text receiver amount p s ea er es =
      let finish : ℤ → ℤ → Bytes → Action Producer (Unit {0}) =
        λ a n r. send_transaction now (filled pk n r a) in
      let nonce : Action Producer ℤ =
        reads (λ q. get_nonce json (public_bytes pk) (negsuc 0) q.canonicaliser) in
      >>=-eq-returned (lift (int amount_text))
        (λ a. nonce >>= λ n. lift (fromhex receiver_text) >>= finish a n) p (ap (λ x. (x, p)) ea)
      ∙ >>=-eq-returned nonce (λ n. lift (fromhex receiver_text) >>= finish amount n) p
          (ap (λ x. (x, p)) (nonce_read (public_bytes pk) p s es))
      ∙ >>=-eq-returned (lift (fromhex receiver_text))
          (finish amount (nonce_of s (public_bytes pk))) p (ap (λ x. (x, p)) er)

  -- Under the laws of the cryptography, when the latest state can be loaded, the receiver and the
  -- amount that are typed can be read, and the amount is not negative and not above the balance of
  -- the wallet in that state: the action "send" does not raise, and behind it the pool holds, under
  -- its hash, a transaction to this receiver with this amount that is acceptable on that state.
  pub send-IsAcceptable :
      (laws : CryptoLaws c) (now : ℕ) (pk : c.SigningKey) (receiver_text amount_text : Text)
      (receiver : Bytes) (amount : ℤ) (p : Producer) (s : BlockchainState)
      → int amount_text ≡ ok amount
      → fromhex receiver_text ≡ ok receiver
      → get_state_at json (negsuc 0) p.canonicaliser ≡ ok s
      → pos 0 ≤ℤ amount
      → amount ≤ℤ balance_of s (public_bytes pk)
      → ((send now pk receiver_text amount_text p).0 ≡ ok tt)
        × (tx : Transaction) × (h : Bytes) × (Transaction.hash tx ≡ ok h)
        × (lookup h (send now pk receiver_text amount_text p).1.mempool.transactions ≡ some tx)
        × (tx.receiver ≡ receiver)
        × (tx.amount ≡ amount)
        × IsAcceptable tx s
  unfolding filled Transaction.sign
  send-IsAcceptable laws now pk receiver_text amount_text receiver amount p s ea er es nonneg
        covered =
      let n = nonce_of s (public_bytes pk) in
      let tx = filled pk n receiver amount in
      let run = send_runs now pk receiver_text amount_text receiver amount p s ea er es in
      let (done, h, filed, there) =
        send_transaction_lem now tx p (filled-is_signed laws pk n receiver amount) in
      (
        ap (λ r. r.0) run ∙ done,
        tx,
        h,
        filed,
        ap (λ r. lookup h r.1.mempool.transactions) run ∙ there,
        refl,
        refl,
        filled-IsAcceptable laws pk receiver amount s nonneg covered,
      )
