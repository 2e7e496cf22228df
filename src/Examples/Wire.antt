-- ===== src/Examples/Wire.antt =====
-- The TCP layer at concrete inputs.
use blockchain_workshop.Prelude.{
  ℕ, [], ◌∷◌, List, ◌≡◌, refl, ◌⊎◌, ◌≤◌, ◌<◌, true, false, none, some, ok, Bytes, codes, length,
  take, drop, arith,
}
use blockchain_workshop.Prelude.Int.{pos, ℤ_eq}
use blockchain_workshop.Prelude.Words.{to_bytes4}
use blockchain_workshop.Prelude.Dict.{remove}
use blockchain_workshop.Network.Address.{TcpAddress, TcpAddress_eq}
use blockchain_workshop.Network.Socket.{Socket, packet, failure, recv_exact, bytes_of}
use blockchain_workshop.Network.Reading.{recv_exact_lem}
use blockchain_workshop.Network.Server.{
  TcpConnection, TcpServer, Event, disconnected_from, send_message, recv_rounds,
}
use blockchain_workshop.Network.Server
use blockchain_workshop.Network.Framing.{send_all, arrivals, sent_messages_arrive}

abbrev here : TcpAddress
here = (codes "10.0.0.1", pos 9000)

abbrev there : TcpAddress
there = (codes "10.0.0.2", pos 9000)

-- The messages 7, 8 and an empty one, in packets that cut a length and a message.
abbrev notes : List Bytes
notes = (7 ∷ 8 ∷ []) ∷ [] ∷ []

abbrev cut : Socket
cut = packet (0 ∷ 0 ∷ []) ∷ packet (0 ∷ 2 ∷ 7 ∷ []) ∷ packet (8 ∷ 0 ∷ 0 ∷ 0 ∷ 0 ∷ []) ∷ failure ∷ []

abbrev sender : TcpConnection
sender = record { object = 0; addr = there; connected = true; incoming = []; written = [] }

abbrev receiver : TcpConnection
receiver = record { object = 1; addr = here; connected = true; incoming = cut; written = [] }

cut_bytes : bytes_of cut ≡ (send_all notes sender).1.written
unfolding bytes_of send_all send_message to_bytes4
cut_bytes = refl

sent_messages_arrive_example :
    ((send_all notes sender).0 ≡ ok tt)
    × ((recv_rounds 2 (receiver, Server.new there)).1
        ≡ record { addr = there; conns = []; events = arrivals here notes [] })
    × ((recv_rounds 4 (receiver, Server.new there)).1 ≡ record {
      addr = there;
      conns = remove {K = TcpAddress} {V = ℕ} here [];
      events = disconnected_from here false ∷ arrivals here notes [];
    })
sent_messages_arrive_example =
    sent_messages_arrive notes sender receiver (Server.new there) 1 (omega arith, (omega arith, tt))
      refl refl refl cut_bytes

recv_exact_lem_example :
    ((3 ≤ length (bytes_of cut))
      × (left : Socket) × (recv_exact 3 cut ≡ (ok (some (take 3 (bytes_of cut))), left))
      × (bytes_of left ≡ drop 3 (bytes_of cut)))
    ⊎ ((length (bytes_of cut) < 3) × (left : Socket) × (recv_exact 3 cut ≡ (ok none, left)))
recv_exact_lem_example = recv_exact_lem 3 cut
