-- ===== src/Text/Decimal.antt =====
-- str(n) and int(s) for base ten.
use blockchain_workshop.Prelude.{
  ℕ, zero, suc, ◌+◌, ◌-◌, ◌*◌, ◌/◌, ◌%◌, ◌<◌, ◌≤◌, [], ◌∷◌, ◌≡◌, refl, ap, ◌&&◌, ◌⊎◌, Bool, true,
  false, Option, none, some, Result, ok, err, value_error, or_raise, Text, arith, codes, Lacks, leb,
  ltb, nat_eq, if◌then◌else◌,
}
use blockchain_workshop.Prelude.Int.{ℤ, pos, negsuc, sub_ℕ}
use blockchain_workshop.Text.Hex.{is_space}

-- A number has at most as many digits as its value and one more, which is the fuel.
digits : ℕ → ℕ → Text → Text
digits zero n out = out
digits (suc f) n out = elim (ltb n 10) [
  | true ↦ (b'0' + n) ∷ out
  | false ↦ digits f (n / 10) ((b'0' + n % 10) ∷ out)
]

unfoldable pub str_ℕ : ℕ → Text
unfolding digits
str_ℕ n = digits (suc n) n []

unfoldable pub str : ℤ → Text
str (pos n) = str_ℕ n
str (negsuc n) = b'-' ∷ str_ℕ (suc n)

unfoldable pub is_digit : ℕ → Bool
is_digit c = leb b'0' c && leb c b'9'

unfoldable pub all_space : Text → Bool
unfolding is_space
all_space [] = true
all_space (c ∷ s) = is_space c && all_space s

-- The digits behind a sign: `open` says that a digit must come next, as at the start and behind an
-- underscore. Blanks may follow the last digit.
scan : Text → Bool → ℕ → Option ℕ
unfolding is_digit all_space
scan [] true acc = none
scan [] false acc = some acc
scan (c ∷ s) wanted acc =
    let next = scan s false (acc * 10 + (c - b'0')) in
    let joined = scan s true acc in
    if is_digit c
    then next
    else if wanted
    then none
    else if nat_eq c b'_'
    then joined
    else if all_space (c ∷ s)
    then some acc
    else none

abbrev plus : Option ℕ → Option ℤ
plus none = none
plus (some n) = some (pos n)

abbrev minus : Option ℕ → Option ℤ
minus none = none
minus (some n) = some (sub_ℕ 0 n)

signed : Text → Option ℤ
unfolding scan
signed [] = none
signed (c ∷ s) =
    if nat_eq c b'-'
    then minus (scan s true 0)
    else if nat_eq c b'+'
    then plus (scan s true 0)
    else plus (scan (c ∷ s) true 0)

unfoldable pub lstrip : Text → Text
unfolding is_space
lstrip [] = []
lstrip (c ∷ s) = if is_space c then lstrip s else c ∷ s

-- int(s)
unfoldable pub int : Text → Result ℤ
unfolding signed
int s = or_raise value_error (signed (lstrip s))

-- A decimal print is a digit and more digits, and reading it behind `acc` is reading the rest.
scan-digits : (f n : ℕ) (out : Text) → n < f → scan (digits f n out) true 0 ≡ scan out false n
unfolding digits scan
scan-digits zero n out h = absurd (omega arith)
scan-digits (suc f) n out h = ground (arith, scan-digits f (n / 10) ((b'0' + n % 10) ∷ out))

abbrev StartsDigit : Text → Type 0
StartsDigit [] = ⊥
StartsDigit (c ∷ s) = (b'0' ≤ c) × (c ≤ b'9')

digits-StartsDigit : (f n : ℕ) (out : Text) → n < f → StartsDigit (digits f n out)
unfolding digits
digits-StartsDigit zero n out h = absurd (omega arith)
digits-StartsDigit (suc f) n out h =
    ground (arith, digits-StartsDigit f (n / 10) ((b'0' + n % 10) ∷ out))

int_digits : (s : Text) → StartsDigit s → int s ≡ or_raise value_error (plus (scan s true 0))
unfolding int lstrip
int_digits [] h = absurd h
int_digits (c ∷ s) h = ground arith

int-minus : (s : Text) → int (b'-' ∷ s) ≡ or_raise value_error (minus (scan s true 0))
unfolding int lstrip
int-minus s = ground arith

scan-str_ℕ : (n : ℕ) → scan (str_ℕ n) true 0 ≡ some n
unfolding str_ℕ scan
scan-str_ℕ n = scan-digits (suc n) n [] (omega arith)

-- Every integer is read back from its print.
pub int-str : (z : ℤ) → int (str z) ≡ ok z
unfolding str
int-str (pos n) = rw (
  int_digits (str_ℕ n) (unfold str_ℕ in digits-StartsDigit (suc n) n [] (omega arith)),
  scan-str_ℕ n,
)
int-str (negsuc n) = rw (int-minus (str_ℕ (suc n)), scan-str_ℕ (suc n)) (ground arith)

-- Different integers print differently.
pub str_injective : (a b : ℤ) → str a ≡ str b → a ≡ b
str_injective a b e = cc (int-str a, int-str b, ap int e)

digits-Lacks :
    (f n : ℕ) (out : Text) (sep : ℕ)
    → (sep < b'-') ⊎ (sep ≡ b':')
    → n < f
    → Lacks sep out
    → Lacks sep (digits f n out)
unfolding digits
digits-Lacks zero n out sep p h l = absurd (omega arith)
digits-Lacks (suc f) n out sep p h l =
    ground (arith, digits-Lacks f (n / 10) ((b'0' + n % 10) ∷ out) sep p)

-- No separator of the program is in a number's print.
pub str-Lacks : (sep : ℕ) (z : ℤ) → (sep < b'-') ⊎ (sep ≡ b':') → Lacks sep (str z)
unfolding str str_ℕ
str-Lacks sep (pos n) h = digits-Lacks (suc n) n [] sep h (omega arith) tt
str-Lacks sep (negsuc n) h =
    ground (arith, digits-Lacks (suc (suc n)) (suc n) [] sep h (omega arith) tt)

reads : (int (codes " -1_0 ") ≡ ok (negsuc 9)) × (int (codes "1__0") ≡ err value_error)
unfolding int lstrip
reads = (refl, refl)
