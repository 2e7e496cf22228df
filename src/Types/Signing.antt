-- ===== src/Types/Signing.antt =====
-- What is signed with a private key is valid for the address of that key.
use blockchain_workshop.Prelude.{[], ◌∷◌, ◌≡◌, ◌≢◌, refl, true, ok, Bytes, arith}
use blockchain_workshop.Crypto.{Crypto, CryptoLaws, public_bytes, public_key, sign, verify}
use blockchain_workshop.Types.Transaction
use blockchain_workshop.Types.Transaction.{Transaction, is_signed}

module _ ⦃c : Crypto⦄ (laws : CryptoLaws c) where
  pub signed : (sig : Bytes) → sig ≢ [] → is_signed sig ≡ true
  signed [] h = absurd (h refl)
  signed (b ∷ bs) h = refl

  valid_of_parts :
      (tx : Transaction) (key : c.VerifyingKey)
      → is_signed tx.sig ≡ true
      → public_key tx.sender ≡ ok key
      → verify key (Transaction.data_to_sign tx) tx.sig ≡ true
      → Transaction.validate_signature tx ≡ ok true
  unfolding Transaction.validate_signature
  valid_of_parts tx key s k v = ground arith

  key_read :
      (key : c.SigningKey) (sender : Bytes)
      → sender ≡ public_bytes key
      → public_key sender ≡ ok (c.get_verifying_key key)
  unfolding public_key public_bytes
  key_read key sender e = rw (e, laws.from_string-to_string (c.get_verifying_key key)) refl

  -- Under the laws of the cryptography, a transaction whose sender is the public key of a private
  -- key, signed with that private key, passes validate_signature; signing changes nothing that is
  -- signed.
  pub validate_signature-sign :
      (key : c.SigningKey) (tx : Transaction)
      → tx.sender ≡ public_bytes key
      → (Transaction.validate_signature (Transaction.sign key tx) ≡ ok true)
        × (Transaction.data_to_sign (Transaction.sign key tx) ≡ Transaction.data_to_sign tx)
  unfolding Transaction.sign Transaction.data_to_sign sign verify
  validate_signature-sign key tx e =
      let text = Transaction.data_to_sign tx in
      (
        valid_of_parts (Transaction.sign key tx) (c.get_verifying_key key)
            (signed (c.sign_deterministic key text) (laws.sign_nonempty key text))
            (key_read key tx.sender e) (laws.verify-sign key text),
        refl,
      )
