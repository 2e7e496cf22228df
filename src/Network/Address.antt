-- ===== src/Network/Address.antt =====
-- parse_address and address_to_str of bcws/network.py.
use blockchain_workshop.Prelude.{
  [], ◌∷◌, ◌++◌, List, ◌≡◌, refl, inr, Result, ok, err, value_error, ◌>>=◌, Text, Lacks, Eq,
  pair_Eq, Bytes_eq, arith,
}
use blockchain_workshop.Prelude.Int.{ℤ, ℤ_eq}
use blockchain_workshop.Text.Decimal.{str, int, int-str, str-Lacks}
use blockchain_workshop.Text.Split.{split, split_at, split_lacking}

-- The host and the port.
abbrev pub TcpAddress : Type 0
TcpAddress = Text × ℤ

instance abbrev pub TcpAddress_eq : Eq TcpAddress
TcpAddress_eq = pair_Eq

-- The tuple assignment raises ValueError unless there are two parts.
unfoldable pub parse_parts : List Text → Result TcpAddress
parse_parts (host ∷ port_str ∷ []) = do port ← int port_str; ok (host, port)
parse_parts _ = err value_error

unfoldable pub parse_address : Text → Result TcpAddress
unfolding parse_parts
parse_address address = parse_parts (split b':' address)

unfoldable pub address_to_str : TcpAddress → Text
address_to_str addr = addr.0 ++ b':' ∷ str addr.1

-- An address whose host holds no colon is read back from its text.
pub parse_address-address_to_str :
    (addr : TcpAddress) → Lacks b':' addr.0 → parse_address (address_to_str addr) ≡ ok addr
unfolding parse_address address_to_str
parse_address-address_to_str addr h =
    rw
      (
        split_at b':' addr.0 (str addr.1) h,
        split_lacking b':' (str addr.1) (str-Lacks b':' addr.1 (inr refl)),
      )
      (ground (arith, int-str addr.1))
