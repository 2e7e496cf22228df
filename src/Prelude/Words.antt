-- ===== src/Prelude/Words.antt =====
-- int.to_bytes and int.from_bytes for four bytes in big-endian order.
use Prim.Native.Nat.{ℕ, ◌+◌, ◌*◌, ◌/◌, ◌%◌, ◌^◌, ◌<◌}
use mathlib.Core.Path.{◌≡◌}
use mathlib.Core.List.{[], ◌∷◌}
use native.Mathlib.Omega.{arith}
use blockchain_workshop.Prelude.Tests.{ltb, if◌then◌else◌}
use blockchain_workshop.Prelude.Lists.{Bytes}
use blockchain_workshop.Prelude.Results.{Result, ok, err, overflow_error}

-- n.to_bytes(4, byteorder="big")
unfoldable pub to_bytes4 : ℕ → Result Bytes
to_bytes4 n =
    if ltb n (2 ^ 32)
    then ok (n / 2 ^ 24 ∷ n / 2 ^ 16 % 256 ∷ n / 2 ^ 8 % 256 ∷ n % 256 ∷ [])
    else err overflow_error

-- int.from_bytes(data, byteorder="big")
unfoldable pub from_bytes : ℕ → Bytes → ℕ
from_bytes acc [] = acc
from_bytes acc (b ∷ bs) = from_bytes (acc * 256 + b) bs

-- Four bytes, which give the number back.
pub from_bytes-to_bytes4 :
    (n : ℕ)
    → n < 2 ^ 32
    → (a : ℕ) × (b : ℕ) × (c : ℕ) × (d : ℕ) × (to_bytes4 n ≡ ok (a ∷ b ∷ c ∷ d ∷ []))
      × (from_bytes 0 (a ∷ b ∷ c ∷ d ∷ []) ≡ n)
unfolding to_bytes4 from_bytes
from_bytes-to_bytes4 n h =
    (n / 2 ^ 24, n / 2 ^ 16 % 256, n / 2 ^ 8 % 256, n % 256, ground arith, omega arith)
