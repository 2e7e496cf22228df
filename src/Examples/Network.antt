-- ===== src/Examples/Network.antt =====
-- The gossip and messaging layers at concrete inputs.
use blockchain_workshop.Prelude.{
  ℕ, arith, [], ◌∷◌, ◌++◌, List, ◌≡◌, refl, Bool, true, false, Option, none, some, ok, Action,
  Bytes, Text, codes, ℕ_eq, pair_Eq, Bytes_eq,
}
use blockchain_workshop.Prelude.Dict.{lookup, contains}
use blockchain_workshop.Gossip
use blockchain_workshop.Gossip.{
  Gossip, broadcast, is_seen, gossip_handler, message_id_of, cleanup_loop,
}
use blockchain_workshop.Gossip.Once.{
  Happening, arrival, own_broadcast, cleanup, HasAdded, broadcast-HasAdded, happen_all,
  gossip_handler_once,
}
use blockchain_workshop.Messaging
use blockchain_workshop.Messaging.{
  Messaging, send_message, handle_message, safe_invoke, process_timeouts,
}
use blockchain_workshop.Network.Address.{TcpAddress, TcpAddress_eq}
use blockchain_workshop.Prelude.Int.{pos, ℤ_eq}
use blockchain_workshop.Messaging.Timeouts.{HasOnce, over, waiting, told_none, process_timeouts_lem}
use blockchain_workshop.Messaging.Requests.{IsFresh}
use blockchain_workshop.Messaging.Exchange.{request_is_answered}

-- An id of sixteen equal bytes.
abbrev id_of : ℕ → Bytes
id_of b = b ∷ b ∷ b ∷ b ∷ b ∷ b ∷ b ∷ b ∷ b ∷ b ∷ b ∷ b ∷ b ∷ b ∷ b ∷ b ∷ []

-- A peer is a number; the handler notes the messages and takes those that are not empty, with a
-- broadcast of its own.
abbrev take_note : Text → ℕ → Bytes → Action (Gossip ℕ × List Bytes) Bool
take_note kind peer [] s = (ok false, s)
take_note kind peer (b ∷ bs) s = (ok true, (broadcast 5 (id_of 9) kind [] s.0, (b ∷ bs) ∷ s.1))

take_note-HasAdded :
    (kind : Text) (peer : ℕ) (text : Bytes) (s : Gossip ℕ × List Bytes)
    → HasAdded s.0 (take_note kind peer text s).1.0
take_note-HasAdded kind peer [] s = (λ once. once, λ h t here. here)
take_note-HasAdded kind peer (b ∷ bs) s = broadcast-HasAdded 5 (id_of 9) kind [] s.0

abbrev id : Bytes
id = 0 ∷ 1 ∷ 2 ∷ 3 ∷ 4 ∷ 5 ∷ 6 ∷ 7 ∷ 8 ∷ 9 ∷ 10 ∷ 11 ∷ 12 ∷ 13 ∷ 14 ∷ 15 ∷ []

abbrev quiet : Gossip ℕ × List Bytes
quiet = (Gossip.new, [])

abbrev bustle : List (Happening ℕ)
bustle =
    cleanup 6
    ∷ arrival 7 (codes "u") 8 (id_of 1 ++ 7 ∷ [])
    ∷ own_broadcast 8 (id_of 2) (codes "t") (3 ∷ [])
    ∷ cleanup 300_000_005
    ∷ []

gossip_handler_once_example :
    let s =
      happen_all take_note take_note-HasAdded bustle
        (gossip_handler (codes "t") (take_note (codes "t")) 5 3 (id ++ 7 ∷ []) quiet) in
    gossip_handler (codes "u") (take_note (codes "u")) 900_000_000 4 (id ++ 8 ∷ []) s ≡ s
unfolding is_seen contains lookup
gossip_handler_once_example =
    gossip_handler_once take_note take_note-HasAdded 5 900_000_000 (codes "t") (codes "u") 3 4
      (id ++ 7 ∷ []) (id ++ 8 ∷ []) bustle quiet tt refl refl (omega arith) refl

abbrev alice : TcpAddress
alice = (codes "10.0.0.7", pos 9000)

abbrev bob : TcpAddress
bob = (codes "10.0.0.8", pos 50123)

-- A response handler is a number, and its calls are noted.
abbrev idle : Messaging ℕ
idle = Messaging.new

idle-IsFresh : IsFresh idle
unfolding contains lookup
idle-IsFresh k e = absurd (cc e)

abbrev Calls : Type 0
Calls = List (ℕ × TcpAddress × Option Bytes)

abbrev no_handlers :
    Text → Option (TcpAddress → Bytes → Action (Messaging ℕ × Calls) (Option Bytes))
no_handlers kind = none

abbrev note_call : ℕ → TcpAddress → Option Bytes → Action (Messaging ℕ × Calls) (Unit {0})
note_call handler conn payload (m, calls) = (ok tt, (m, (handler, conn, payload) ∷ calls))

-- The other node answers every message with its bytes and one more.
abbrev echo : TcpAddress → Bytes → Action (Messaging ℕ × Calls) (Option Bytes)
echo conn payload s = (ok (some (6 ∷ payload)), s)

abbrev echoes : Text → Option (TcpAddress → Bytes → Action (Messaging ℕ × Calls) (Option Bytes))
echoes kind = some echo

request_is_answered_example :
    (sent : Bytes) × (received : Bytes) × (m' : Messaging ℕ) × ((send_message 100 alice
        (codes "echo")
        (7 ∷ [])
        (some 42)
        none
        idle).0
      ≡ ok tt)
    × ((send_message 100 alice (codes "echo") (7 ∷ []) (some 42) none idle).1.sent
        ≡ (alice, sent) ∷ [])
    × (handle_message echoes note_call bob sent (idle, [])
        ≡ (ok tt, (record idle { sent = (bob, received) ∷ [] }, [])))
    × (handle_message no_handlers note_call alice received
          ((send_message 100 alice (codes "echo") (7 ∷ []) (some 42) none idle).1, [])
        ≡ (ok tt, (m', (42, alice, some (6 ∷ 7 ∷ [])) ∷ [])))
    × ((k : TcpAddress × ℕ) → lookup k m'.response_handlers ≡ lookup k idle.response_handlers)
request_is_answered_example =
    request_is_answered no_handlers note_call echoes note_call 100 alice bob (codes "echo") (7 ∷ [])
      (6 ∷ 7 ∷ []) 42 none idle [] echo (idle, []) (idle, []) idle-IsFresh (omega arith)
      (ground arith) refl refl

-- One request is over and one is not.
abbrev pending : Messaging ℕ
pending = record {
  last_message_id = 2;
  response_handlers = ((alice, 1), (50, 41)) ∷ ((alice, 2), (500, 42)) ∷ [];
  sent = [];
}

pending-HasOnce : HasOnce pending.response_handlers
unfolding lookup
pending-HasOnce = (refl, (refl, tt))

process_timeouts_lem_example :
    process_timeouts no_handlers note_call 100 (pending, [])
    ≡ told_none note_call
        (over 100 pending.response_handlers)
        (record pending { response_handlers = waiting 100 pending.response_handlers }, [])
process_timeouts_lem_example =
    process_timeouts_lem no_handlers note_call 100 pending [] pending-HasOnce
