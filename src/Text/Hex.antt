-- ===== src/Text/Hex.antt =====
-- bytes.hex() and bytes.fromhex().
use mathlib.Core.Path.{subst}
use blockchain_workshop.Prelude.{
  ℕ, ◌+◌, ◌-◌, ◌*◌, ◌/◌, ◌%◌, ◌<◌, [], ◌∷◌, ◌≡◌, refl, ap, ◌&&◌, ◌||◌, ◌⊎◌, inl, inr, Bool-cases,
  Bool, true, false, Option, none, some, Result, ok, err, value_error, or_raise, ◌>>=◌, Bytes, Text,
  arith, Lacks, IsBytes, leb, ltb, nat_eq, if◌then◌else◌,
}

-- The digit of a number below 16.
unfoldable pub hex_digit : ℕ → ℕ
hex_digit d = if ltb d 10 then b'0' + d else b'a' + (d - 10)

unfoldable pub hex : Bytes → Text
unfolding hex_digit
hex [] = []
hex (b ∷ bs) = hex_digit (b / 16) ∷ hex_digit (b % 16) ∷ hex bs

-- Both cases of a letter are read.
unfoldable pub digit_value : ℕ → Option ℕ
digit_value c =
    if leb b'0' c && leb c b'9'
    then some (c - b'0')
    else if leb b'a' c && leb c b'f'
    then some (c - b'a' + 10)
    else if leb b'A' c && leb c b'F'
    then some (c - b'A' + 10)
    else none

-- Tab to carriage return, and the blank.
unfoldable pub is_space : ℕ → Bool
is_space c = (leb 9 c && leb c 13) || nat_eq c 32

pair_value : ℕ → ℕ → Option ℕ
unfolding digit_value
pair_value c d = elim (digit_value c) [
  | none ↦ none
  | some hi ↦ elim (digit_value d) [ none ↦ none | some lo ↦ some (hi * 16 + lo) ]
]

-- `fromhex` skips blanks between the bytes, and raises ValueError on anything else.
unfoldable pub fromhex : Text → Result Bytes
unfolding is_space pair_value
fromhex [] = ok []
fromhex (c ∷ []) = if is_space c then ok [] else err value_error
fromhex (c ∷ d ∷ s) = elim (is_space c) [
  | true ↦ fromhex (d ∷ s)
  | false ↦ do b ← or_raise value_error (pair_value c d); bs ← fromhex s; ok (b ∷ bs)
]

-- A lower-case digit is no blank, and is read back.
hex_digit_lem :
    (d : ℕ) → d < 16 → (is_space (hex_digit d) ≡ false) × (digit_value (hex_digit d) ≡ some d)
unfolding hex_digit is_space digit_value
hex_digit_lem d h = ground arith

pub fromhex-hex : (bs : Bytes) → IsBytes bs → fromhex (hex bs) ≡ ok bs
unfolding hex fromhex
fromhex-hex [] h = refl
fromhex-hex (b ∷ bs) h =
    unfold hex fromhex in
    ground (
      arith,
      hex_digit_lem (b / 16) (omega arith),
      hex_digit_lem (b % 16) (omega arith),
      fromhex-hex bs h.1,
    )

-- Separators below the digits, and the colon, are in no hex text.
pub hex-Lacks : (sep : ℕ) (bs : Bytes) → (sep < b'0') ⊎ (sep ≡ b':') → Lacks sep (hex bs)
unfolding hex
hex-Lacks sep [] h = tt
hex-Lacks sep (b ∷ bs) h = ground (arith, hex-Lacks sep bs h)

-- Different byte strings have different hex texts.
pub hex_injective : (a b : Bytes) → IsBytes a → IsBytes b → hex a ≡ hex b → a ≡ b
hex_injective a b ha hb e = cc (fromhex-hex a ha, fromhex-hex b hb, ap fromhex e)

pair_value_lt : (c d b : ℕ) → pair_value c d ≡ some b → b < 256
unfolding pair_value
pair_value_lt c d b h = ground arith

pair_bytes :
    (o : Option ℕ) (r : Result Bytes) (bs : Bytes)
    → (or_raise value_error o >>= λ b. r >>= λ rest. ok (b ∷ rest)) ≡ ok bs
    → ((b : ℕ) → o ≡ some b → b < 256)
    → ((rest : Bytes) → r ≡ ok rest → IsBytes rest)
    → IsBytes bs
pair_bytes (some b) (ok rest) bs h hb hr =
    subst IsBytes {x = b ∷ rest} {y = bs} (cc h) (hb b refl, hr rest refl)
pair_bytes (some b) (err e) bs h hb hr = cc
pair_bytes none r bs h hb hr = cc

-- What is read is bytes.
pub fromhex-IsBytes : (s : Text) (bs : Bytes) → fromhex s ≡ ok bs → IsBytes bs
unfolding fromhex
fromhex-IsBytes [] bs h = ground arith
fromhex-IsBytes (c ∷ []) bs h = ground arith
fromhex-IsBytes (c ∷ d ∷ s) bs h = elim (Bool-cases (is_space c)) [
  | inl blank ↦ fromhex-IsBytes (d ∷ s) bs (ground arith)
  | inr digit ↦
      pair_bytes (pair_value c d) (fromhex s) bs (ground arith) (λ b e. pair_value_lt c d b e)
        (fromhex-IsBytes s)
]
