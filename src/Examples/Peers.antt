-- ===== src/Examples/Peers.antt =====
-- The P2P layer at concrete inputs. Texts are their own bytes here, the user of the node keeps a list
-- of what arrives, and a response handler is a number.
use mathlib.Core.Path.{subst}
use blockchain_workshop.Prelude.{
  inl, ℕ, ◌≤◌, [], ◌∷◌, List, ◌≡◌, ◌≢◌, refl, true, false, Option, none, some, ok, Action, Bytes,
  Text, codes, length, arith,
}
use blockchain_workshop.Prelude.Int.{pos}
use blockchain_workshop.Messaging
use blockchain_workshop.Messaging.{Messaging}
use blockchain_workshop.Network.Address.{TcpAddress, TcpAddress_eq, parse_address, parse_parts}
use blockchain_workshop.Text.Split.{split}
use blockchain_workshop.Text.Decimal.{int, lstrip}
use blockchain_workshop.P2p.PeerList.{
  Codec, make_peer_list, parse_peer_list, decode_address, parse_peer_list-make_peer_list,
}
use blockchain_workshop.P2p.Peers
use blockchain_workshop.P2p.Peers.{P2pPeer, P2pNode, is_in}
use blockchain_workshop.P2p.Node.{
  State, Surroundings, node_of, handle_hello, broadcast_message, send_message, make_handler,
  connect_to_peer, receive,
}
use blockchain_workshop.P2p.Tables.{IsConsistent, HasOnce}
use blockchain_workshop.P2p.Reach.{Keeps}
use blockchain_workshop.P2p.Runs.{HandlersKeep, created, after, connecting, Reached-IsConsistent}
use blockchain_workshop.P2p.Broadcast.{opened, others, posted, broadcast_message_lem}
use blockchain_workshop.P2p.Shrinking.{Picks, HasShrunk, peer_rounds, peer_rounds-HasShrunk}
use blockchain_workshop.P2p.Handshake.{handshake}
use blockchain_workshop.Messaging.Requests.{IsFresh}
use blockchain_workshop.Prelude.Dict.{contains, lookup}
use blockchain_workshop.P2p.Hello.{handle_hello_bound, hello_twice, hello_twice_lem}

abbrev plain : Codec
plain = record {
  IsEncodable = λ t. Unit {0};
  encode = λ t. t;
  decode = λ b. ok b;
  decode-encode = λ t _. refl;
  encode_empty = refl;
  IsEncodable_empty = tt;
}

abbrev bob : TcpAddress
bob = (codes "10.0.0.1", pos 9000)

abbrev carol : TcpAddress
carol = (codes "10.0.0.2", pos 9001)

abbrev dave : TcpAddress
dave = (codes "10.0.0.3", pos 50000)

parse_peer_list-make_peer_list_example :
    parse_peer_list plain (make_peer_list plain (bob ∷ carol ∷ [])) ≡ ok (bob ∷ carol ∷ [])
parse_peer_list-make_peer_list_example =
    parse_peer_list-make_peer_list plain (bob ∷ carol ∷ []) (ground arith) tt

-- Everybody can be reached; the first peer is chosen.
abbrev first_of : List P2pPeer → Option P2pPeer
first_of [] = none
first_of (p ∷ ps) = some p

abbrev calm : Surroundings
calm = record { now = 5; reachable = λ a. true; shuffle = λ l. l; choice = first_of }

calm-Picks : Picks calm
unfolding is_in
calm-Picks p ps = (p, refl, inl refl)

abbrev Inbox : Type 0
Inbox = List (P2pPeer × Bytes)

abbrev take_mail : P2pPeer → Bytes → Action (State ℕ Inbox) (Option Bytes)
take_mail p data' (m, (n, inbox)) = (ok none, (m, (n, (p, data') ∷ inbox)))

abbrev users : Text → Option (P2pPeer → Bytes → Action (State ℕ Inbox) (Option Bytes))
users kind = some take_mail

abbrev hear : ℕ → P2pPeer → Option Bytes → Action (State ℕ Inbox) (Unit {0})
hear h p resp s = (ok tt, s)

keep : HandlersKeep plain users hear
keep = record {
  messages = λ kind f e.
      subst
        (λ o. elim o [
          | none ↦ Unit {0}
          | some g ↦ (p : P2pPeer) (data' : Bytes) → Keeps {H = ℕ} {A = Inbox} (g p data')
        ])
        e (λ p data' s h. h);
  responses = λ h p resp s g. g;
}

abbrev fresh : State ℕ Inbox
fresh = (Messaging.new, (Peers.new bob 2 [], []))

Reached-IsConsistent_example : IsConsistent (node_of (connect_to_peer plain calm carol fresh).1)
Reached-IsConsistent_example =
    Reached-IsConsistent plain users hear keep (connect_to_peer plain calm carol fresh).1
      (after fresh _ (created bob 2 [] []) (connecting calm carol fresh))

-- Three peers, where two are wanted.
abbrev crowd : List P2pPeer
crowd =
    record { conn = bob; addr = bob }
    ∷ record { conn = dave; addr = carol }
    ∷ record { conn = dave; addr = dave }
    ∷ []

abbrev crowded : State ℕ Inbox
crowded = (Messaging.new, (record (Peers.new bob 2 []) { peers = crowd }, []))

broadcast_message_lem_example :
    (m : Messaging _) × (broadcast_message 5
        (codes "t")
        (7 ∷ [])
        none
        none
        (record { conn = dave; addr = dave } ∷ [])
        crowded
      ≡ (ok tt, (m, crowded.1)))
    × (opened m.sent
        ≡ posted 0 0
            (codes "t")
            (7 ∷ [])
            (others (record { conn = dave; addr = dave } ∷ []) crowd)
            (opened []))
broadcast_message_lem_example =
    broadcast_message_lem 5 (codes "t") (7 ∷ []) none none
      (record { conn = dave; addr = dave } ∷ []) (ground arith) crowded (omega arith)

crowd-HasOnce : HasOnce crowd
unfolding is_in
crowd-HasOnce = (refl, (refl, (refl, tt)))

peer_rounds-HasShrunk_example :
    (gone : List P2pPeer) × HasShrunk crowded (peer_rounds plain (calm ∷ calm ∷ []) crowded) gone
peer_rounds-HasShrunk_example =
    peer_rounds-HasShrunk plain (calm ∷ calm ∷ []) crowded (calm-Picks, (calm-Picks, tt))
      crowd-HasOnce (omega arith) (omega arith) (omega arith)

handle_hello_bound_example :
    (length (node_of (handle_hello plain calm dave (codes "10.0.0.9:1") crowded).1).peers ≤ 4)
    × (length (node_of (handle_hello plain calm dave (codes "10.0.0.9:1") crowded).1).peers ≤ 4)
handle_hello_bound_example =
    handle_hello_bound plain calm dave (codes "10.0.0.9:1") crowded (omega arith)

carol_decoded : decode_address plain (codes "10.0.0.2:9001") ≡ ok carol
unfolding decode_address parse_address parse_parts split int lstrip
carol_decoded = refl

bob_differs : bob ≢ dave
bob_differs e = absurd (cc ((TcpAddress_eq.test_iff bob dave).1 e))

hello_twice_lem_example :
    (is_in carol (node_of (hello_twice plain calm bob dave (codes "10.0.0.2:9001") fresh)).peers
      ≡ false)
    × (send_message 6
          (record { conn = bob; addr = carol })
          (codes "t")
          (7 ∷ [])
          none
          none
          (hello_twice plain calm bob dave (codes "10.0.0.2:9001") fresh)
        ≡ (ok tt, hello_twice plain calm bob dave (codes "10.0.0.2:9001") fresh))
    × (make_handler plain calm users hear take_mail bob
          (7 ∷ [])
          (hello_twice plain calm bob dave (codes "10.0.0.2:9001") fresh)
        ≡ take_mail
            (record { conn = bob; addr = carol })
            (7 ∷ [])
            (hello_twice plain calm bob dave (codes "10.0.0.2:9001") fresh))
hello_twice_lem_example =
    hello_twice_lem plain calm users hear bob dave carol (codes "10.0.0.2:9001") fresh take_mail 6
      (codes "t") (7 ∷ []) none none bob_differs carol_decoded (omega arith)

no_requests-IsFresh : IsFresh fresh.0
unfolding contains lookup
no_requests-IsFresh k e = absurd (cc e)

-- Carol has one peer, and Bob connects to her from another port.
abbrev hostess : State ℕ Inbox
hostess = (
  Messaging.new,
  (record (Peers.new carol 2 []) { peers = record { conn = dave; addr = dave } ∷ [] }, []),
)

abbrev port : TcpAddress
port = (codes "10.0.0.1", pos 50001)

no_table : contains carol (node_of fresh).peers_addr ≡ false
unfolding contains lookup
no_table = refl

handshake_example :
    (data' : Bytes) × (data2 : Bytes) × ((connect_to_peer plain calm carol fresh).1.0.sent
      ≡ (carol, data') ∷ [])
    × ((receive plain calm users hear port data' hostess).0 ≡ ok tt)
    × ((receive plain calm users hear port data' hostess).1.0.sent ≡ (port, data2) ∷ [])
    × (is_in bob (node_of (receive plain calm users hear port data' hostess).1).peers ≡ true)
    × (is_in carol
          (node_of
            (receive plain calm users hear carol data2
              (connect_to_peer plain calm carol fresh).1).1).peers
        ≡ true)
handshake_example =
    handshake plain calm calm users users hear hear carol port fresh hostess no_requests-IsFresh
      (omega arith) refl no_table refl tt (ground arith) (omega arith) (ground arith) tt
