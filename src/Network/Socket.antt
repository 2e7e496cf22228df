-- ===== src/Network/Socket.antt =====
-- recv_exact of bcws/utils.py. A socket to read from is what its calls of recv meet: packets, which
-- may come in parts, and failures; when none is left the connection is closed.
use blockchain_workshop.Prelude.{
  ℕ, zero, suc, ◌-◌, [], ◌∷◌, ◌++◌, List, true, false, Option, none, some, ok, err, out_of_fuel,
  Action, Bytes, length, take, drop, leb, ltb, if◌then◌else◌,
}

pub data Chunk : Type 0 where
  packet : Bytes → Chunk
  failure : Chunk

abbrev pub Socket : Type 0
Socket = List Chunk

-- sock.recv(n): at most n bytes; `none` is an exception, and no bytes mean the end.
unfoldable pub recv : ℕ → Socket → Option Bytes × Socket
recv n [] = (some [], [])
recv n (failure ∷ rest) = (none, rest)
recv n (packet p ∷ rest) =
    if leb (length p) n then (some p, rest) else (some (take n p), packet (drop n p) ∷ rest)

-- The body of the loop behind recv: go on with the data so far, or give up.
unfoldable pub recv_loop : ℕ → ℕ → Bytes → Action Socket (Option Bytes)
recv_loop zero n data' sock =
    if ltb (length data') n then (err out_of_fuel, sock) else (ok (some data'), sock)
recv_loop (suc fuel) n data' sock = elim (ltb (length data') n) [
  | false ↦ (ok (some data'), sock)
  | true ↦
      let (got, rest) = recv (n - length data') sock in
      elim got [
        | none ↦ (ok none, rest)
        | some [] ↦ (ok none, rest)
        | some (b ∷ bs) ↦ recv_loop fuel n (data' ++ b ∷ bs) rest
      ]
]

-- Each round brings at least one byte, so n rounds are enough.
unfoldable pub recv_exact : ℕ → Action Socket (Option Bytes)
unfolding recv_loop recv
recv_exact n = recv_loop n n []

-- The bytes that can be read before the connection closes or fails.
unfoldable pub bytes_of : Socket → Bytes
bytes_of [] = []
bytes_of (failure ∷ rest) = []
bytes_of (packet [] ∷ rest) = []
bytes_of (packet (b ∷ p) ∷ rest) = b ∷ (p ++ bytes_of rest)
