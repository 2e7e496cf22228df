-- ===== src/Examples/World.antt =====
-- A toy instance of `Crypto`: a key is its own encoding, a signature is the signed text behind a
-- one, and a digest is four zeros and the first 28 bytes of the text.
use blockchain_workshop.Prelude.{
  ℕ, zero, suc, ◌%◌, [], ◌∷◌, ◌≡◌, refl, some, Bytes, IsBytes, arith, length, bytes_eq,
  bytes_eq_iff,
}
use blockchain_workshop.Prelude.Int.{pos}
use blockchain_workshop.Crypto
use blockchain_workshop.Crypto.{Crypto, CryptoLaws}
use blockchain_workshop.Prelude.Int.{◌+ℤ◌, ◌-ℤ◌}
use blockchain_workshop.Prelude.Dict.{
  setdefault, subscript, insert, remove, lookup, contains, get_or, values,
}
use blockchain_workshop.Text.Hex.{hex, fromhex, hex_digit}
use blockchain_workshop.Text.Decimal.{str, str_ℕ, int, lstrip}
use blockchain_workshop.Text.Split.{split}
use blockchain_workshop.Types.Transaction
use blockchain_workshop.Types.Transaction.{Transaction}
use blockchain_workshop.Types.Block
use blockchain_workshop.Mempool.{
  get_transactions, evict_transaction, add_transaction, handle_new_tx, expire, expire_all,
  cleanup_loop,
}
use blockchain_workshop.Chain.State.{BlockchainState, apply_transaction, check_accounts, move_funds}
use blockchain_workshop.Chain.Blocks.{
  apply_transactions, apply_block, try_transaction, build_loop, build_block,
}
use blockchain_workshop.Chain.Supply.{total}

abbrev pub fit : ℕ → Bytes → Bytes
fit zero bs = []
fit (suc n) [] = 0 ∷ fit n []
fit (suc n) (b ∷ bs) = (b % 256) ∷ fit n bs

instance abbrev pub toy : Crypto
toy = record {
  SigningKey = Bytes;
  VerifyingKey = Bytes;
  get_verifying_key = λ k. k;
  from_string = λ b. some b;
  to_string = λ k. k;
  sign_deterministic = λ k d. 1 ∷ d;
  verify_signature = λ k g d. bytes_eq g (1 ∷ d);
  sha256 = λ d. 0 ∷ 0 ∷ 0 ∷ 0 ∷ fit 28 d;
}

fit-IsBytes : (n : ℕ) (bs : Bytes) → IsBytes (fit n bs)
fit-IsBytes zero bs = tt
fit-IsBytes (suc n) [] = (omega arith, fit-IsBytes n [])
fit-IsBytes (suc n) (b ∷ bs) = (omega arith, fit-IsBytes n bs)

length-fit : (n : ℕ) (bs : Bytes) → length (fit n bs) ≡ n
length-fit zero bs = refl
length-fit (suc n) [] = omega (arith, length-fit n [])
length-fit (suc n) (b ∷ bs) = omega (arith, length-fit n bs)

pub toy_laws : CryptoLaws toy
toy_laws = record {
  from_string-to_string = λ k. refl;
  verify-sign = λ k d. (bytes_eq_iff (1 ∷ d) (1 ∷ d)).1 refl;
  sign_nonempty = λ k d. cc;
  sha256-IsBytes =
      λ d. (omega arith, (omega arith, (omega arith, (omega arith, fit-IsBytes 28 d))));
  length-sha256 = λ d. omega (arith, length-fit 28 d);
}

abbrev pub alice : Bytes
alice = 7 ∷ 200 ∷ []

abbrev pub bob : Bytes
bob = 8 ∷ []

abbrev pub miner : Bytes
miner = 9 ∷ 9 ∷ []

abbrev pub unsigned : Transaction
unsigned = record { sender = alice; receiver = bob; nonce = pos 0; amount = pos 30; sig = [] }

abbrev pub tx : Transaction
tx = record unsigned { sig = 1 ∷ Transaction.data_to_sign unsigned }

-- The same payment with a nonce out of turn.
abbrev pub late_tx : Transaction
late_tx = record unsigned {
  nonce = pos 1;
  sig = 1 ∷ Transaction.data_to_sign (record unsigned { nonce = pos 1 });
}

abbrev pub state : BlockchainState
state = record {
  block_number = pos 3;
  block_hash = 5 ∷ 6 ∷ [];
  balances = (alice, pos 100) ∷ [];
  nonces = [];
}

-- What a run of the model unfolds.
unfoldable pub executable : Unit {0}
unfolding apply_transaction check_accounts move_funds apply_transactions apply_block try_transaction
    build_loop build_block Transaction.validate_signature Transaction.hash Transaction.serialize
    Transaction.data_to_sign Transaction.deserialize Block.serialize Block.serialize_all
    Block.calculate_hash Block.has_difficulty Block.deserialize Block.deserialize_all
    Block.starts_with_zeros Crypto.public_key Crypto.verify Crypto.sign hex fromhex hex_digit str
    str_ℕ int lstrip split setdefault subscript insert remove lookup contains get_or values
    get_transactions evict_transaction add_transaction handle_new_tx expire expire_all cleanup_loop
    ◌+ℤ◌ ◌-ℤ◌ total
executable = tt
