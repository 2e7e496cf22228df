-- ===== src/Crypto.antt =====
-- bcws/crypto.py, and what the program uses of the packages `ecdsa` and `hashlib`, which are not
-- part of the repository: an instance of `Crypto`.
use blockchain_workshop.Prelude.{
  [], ◌≡◌, ◌≢◌, Bool, true, Option, some, Result, malformed_key, or_raise, Bytes, IsBytes, length,
}

pub record Crypto : Type 1 where
  -- ecdsa.SigningKey and ecdsa.VerifyingKey
  pub SigningKey : Type 0
  pub VerifyingKey : Type 0
  pub get_verifying_key : SigningKey → VerifyingKey
  -- VerifyingKey.from_string; `none` is a raised MalformedPointError
  pub from_string : Bytes → Option VerifyingKey
  -- VerifyingKey.to_string(encoding="compressed")
  pub to_string : VerifyingKey → Bytes
  pub sign_deterministic : SigningKey → Bytes → Bytes
  -- VerifyingKey.verify(sig, data); `false` is a raised BadSignatureError
  pub verify_signature : VerifyingKey → Bytes → Bytes → Bool
  -- hashlib.sha256(data).digest()
  pub sha256 : Bytes → Bytes

-- What the packages document: keys are read back from their encoding, a signature verifies under
-- the key that belongs to its signer and is not empty, and a digest is 32 bytes.
pub record CryptoLaws (c : Crypto) : Type 0 where
  pub from_string-to_string : (k : c.VerifyingKey) → c.from_string (c.to_string k) ≡ some k
  pub verify-sign :
      (k : c.SigningKey) (data' : Bytes)
      → c.verify_signature (c.get_verifying_key k) (c.sign_deterministic k data') data' ≡ true
  pub sign_nonempty : (k : c.SigningKey) (data' : Bytes) → c.sign_deterministic k data' ≢ []
  pub sha256-IsBytes : (data' : Bytes) → IsBytes (c.sha256 data')
  pub length-sha256 : (data' : Bytes) → length (c.sha256 data') ≡ 32

module _ ⦃c : Crypto⦄ where
  -- PrivateKey.to_public().to_bytes()
  unfoldable pub public_bytes : c.SigningKey → Bytes
  public_bytes k = c.to_string (c.get_verifying_key k)

  -- PrivateKey.sign
  unfoldable pub sign : c.SigningKey → Bytes → Bytes
  sign k data' = c.sign_deterministic k data'

  -- PublicKey.from_bytes
  unfoldable pub public_key : Bytes → Result c.VerifyingKey
  public_key data' = or_raise malformed_key (c.from_string data')

  -- PublicKey.verify: the try block turns BadSignatureError into False
  unfoldable pub verify : c.VerifyingKey → Bytes → Bytes → Bool
  verify k data' sig = c.verify_signature k sig data'
