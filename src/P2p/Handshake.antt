-- ===== src/P2p/Handshake.antt =====
-- Two nodes that say hello.
use blockchain_workshop.Prelude.{
  ℕ, suc, ◌*◌, ◌^◌, ◌<◌, [], ◌∷◌, List, ◌≡◌, refl, sym, ap, ◌∙◌, inl, inr, true, false, Option,
  none, some, ok, Action, Bytes, Text, Lacks, All, length, Bool-cases, ◌==◌, ==_refl, leb, ltb,
  pair_Eq, Bytes_eq, arith,
}
use blockchain_workshop.Prelude.Dict.{contains}
use blockchain_workshop.Prelude.Actions.{keeps_bind, ◌>>=◌, >>=-eq-returned}
use blockchain_workshop.Messaging
use blockchain_workshop.Messaging.{Messaging}
use blockchain_workshop.Messaging.Format
use blockchain_workshop.Messaging.Format.{MessagingMessage, serialize_short, deserialize-serialize}
use blockchain_workshop.Messaging.Requests.{IsFresh, reply, response_reaches_handler}
use blockchain_workshop.Network.Address.{
  TcpAddress, TcpAddress_eq, address_to_str, parse_address-address_to_str,
}
use blockchain_workshop.P2p.PeerList.{
  Codec, decode_address, strings, make_peer_list, parse_peer_list, IsPlain,
  parse_peer_list-make_peer_list,
}
use blockchain_workshop.Text.Split.{join}
use blockchain_workshop.P2p.Peers.{P2pPeer, P2pNode, connect, is_in, add, insert_peer, net_call}
use blockchain_workshop.P2p.Hello.{hello_decoded}
use blockchain_workshop.P2p.Node.{
  State, Surroundings, ResponseHandler, hello_response, p2p_hello, node_of, on_node, mail,
  addresses, connect_to_peer, connect_loop, connect_to_peers, answer_hello, handle_hello,
  take_answer, handle_hello_response, handler_of, invoke, receive,
}

is_in-insert_peer :
    (b : TcpAddress) (p : P2pPeer) (n : P2pNode)
    → p.addr ≡ b
    → is_in b (insert_peer p n).peers ≡ true
unfolding insert_peer add is_in
is_in-insert_peer b p n e = elim (Bool-cases (is_in p.addr n.peers)) [
  | inl t ↦ rw t (ap (λ x. is_in x n.peers) (sym e) ∙ t)
  | inr t ↦ rw (t, e, ==_refl b) refl
]

module _ {H A : Type 0} (codec : Codec) (env : Surroundings) where
  -- Connecting to others does not touch the peers.
  module _ (b : TcpAddress) where
    abbrev Has : State H A → Type 0
    Has s = is_in b (node_of s).peers ≡ true

    connect_to_peer-Has :
        (addr : TcpAddress) (s : State H A) → Has s → Has (connect_to_peer codec env addr s).1
    unfolding connect_to_peer mail net_call
    connect_to_peer-Has addr s g = elim (Bool-cases (addr == (node_of s).addr)) [
      | inl t ↦ rw (connect_to_peer, t) g
      | inr t ↦ elim (Bool-cases (contains addr (node_of s).peers_addr)) [
        | inl u ↦ rw (connect_to_peer, t, u) g
        | inr u ↦ elim (Bool-cases (env.reachable addr)) [
          | inl v ↦ rw (connect_to_peer, t, u, v) g
          | inr v ↦ rw (connect_to_peer, t, u, v) g
        ]
      ]
    ]

    connect_loop-Has :
        (addrs : List TcpAddress) (s : State H A) → Has s → Has (connect_loop codec env addrs s).1
    unfolding connect_loop
    connect_loop-Has [] s g = g
    connect_loop-Has (addr ∷ addrs) s g =
        elim (Bool-cases (leb (node_of s).max_peers (length (node_of s).peers))) [
          | inl t ↦ rw (connect_loop, t) g
          | inr t ↦ elim (Bool-cases (addr == (node_of s).addr)) [
            | inl u ↦ rw (connect_loop, t, u) (connect_loop-Has addrs s g)
            | inr u ↦
                rw (connect_loop, t, u)
                  (keeps_bind Has (λ _. connect_loop codec env addrs)
                    (connect_to_peer codec env addr) s (connect_to_peer-Has addr s g)
                    (λ _ _. connect_loop-Has addrs _ (connect_to_peer-Has addr s g)))
          ]
        ]

  -- The peer that accepted a hello stands among the peers.
  accepted-Has :
      (b : TcpAddress) (peer_list : Bytes) (addrs : List TcpAddress) (s : State H A)
      → parse_peer_list codec peer_list ≡ ok addrs
      → Has b (handle_hello_response codec env b (some (1 ∷ peer_list)) s).1
  unfolding handle_hello_response take_answer connect_to_peers
  accepted-Has b peer_list addrs s e =
      rw (handle_hello_response, e)
        (connect_loop-Has b (env.shuffle addrs)
          (on_node (insert_peer (record { conn = b; addr = b })) s)
          (is_in-insert_peer b (record { conn = b; addr = b }) (node_of s) refl))

  -- A node that connects and says hello.
  says_hello :
      (b : TcpAddress) (s : State H A)
      → (b == (node_of s).addr) ≡ false
      → contains b (node_of s).peers_addr ≡ false
      → env.reachable b ≡ true
      → (connect_to_peer codec env b s).1 ≡ (
        (Messaging.send_message env.now b p2p_hello
            (codec.encode (address_to_str (node_of s).addr))
            (some hello_response)
            none
            s.0).1,
        (net_call (connect b) (node_of s), s.1.1),
      )
  unfolding connect_to_peer mail
  says_hello b s t u v = rw (connect_to_peer, t, u, v) refl

abbrev pub hello : ℕ → Bytes → MessagingMessage
hello id payload = record { message_type = 1; message_id = id; kind = p2p_hello; payload = payload }

p2p_hello-Lacks : Lacks 0 p2p_hello
p2p_hello-Lacks = ground arith

module _ {H A : Type 0} (codec : Codec) (env : Surroundings)
    (user : Text → Option (P2pPeer → Bytes → Action (State H A) (Option Bytes)))
    (answer : H → P2pPeer → Option Bytes → Action (State H A) (Unit {0})) where
  accepts :
      (conn addr : TcpAddress) (payload : Bytes) (s : State H A)
      → decode_address codec payload ≡ ok addr
      → length (node_of s).peers < (node_of s).max_peers * 2
      → handle_hello codec env conn payload s ≡ (
        ok (some (1 ∷ make_peer_list codec (addresses (node_of s).peers))),
        on_node (insert_peer (record { conn = conn; addr = addr })) s,
      )
  unfolding answer_hello
  accepts conn addr payload s read room =
      let t : ltb (length (node_of s).peers) ((node_of s).max_peers * 2) ≡ true = ground arith in
      hello_decoded codec env conn addr payload s read ∙ rw (answer_hello, t) refl

  hello_dispatched :
      (conn : TcpAddress) (id : ℕ) (payload data' : Bytes) (s : State H A)
      → Format.serialize (hello id payload) ≡ ok data'
      → receive codec env user answer conn data' s
        ≡ (handle_hello codec env conn payload
              >>= Messaging.respond
                  (handler_of codec env user answer)
                  (invoke codec env user answer)
                  conn
                  (hello id payload))
            s
  unfolding receive Messaging.handle_message Messaging.dispatch handler_of
  hello_dispatched conn id payload data' s sent =
      rw (deserialize-serialize (hello id payload) data' p2p_hello-Lacks sent) refl

  responds :
      (conn : TcpAddress) (id : ℕ) (payload out data2 : Bytes) (s : State H A)
      → Format.serialize (reply id out) ≡ ok data2
      → Messaging.respond
          (handler_of codec env user answer)
          (invoke codec env user answer)
          conn
          (hello id payload)
          (some out)
          s
        ≡ (ok tt, (record s.0 { sent = (conn, data2) ∷ s.0.sent }, s.1))
  unfolding Messaging.respond Messaging.transmit
  responds conn id payload out data2 s written = rw written refl

  -- A node with room for the peer that says hello.
  answers_hello :
      (conn addr : TcpAddress) (id : ℕ) (payload data' data2 : Bytes) (s : State H A)
      → Format.serialize (hello id payload) ≡ ok data'
      → decode_address codec payload ≡ ok addr
      → length (node_of s).peers < (node_of s).max_peers * 2
      → Format.serialize (reply id (1 ∷ make_peer_list codec (addresses (node_of s).peers)))
        ≡ ok data2
      → receive codec env user answer conn data' s ≡ (
        ok tt,
        (
          record s.0 { sent = (conn, data2) ∷ s.0.sent },
          (insert_peer (record { conn = conn; addr = addr }) (node_of s), s.1.1),
        ),
      )
  answers_hello conn addr id payload data' data2 s sent read room written =
      let out = 1 ∷ make_peer_list codec (addresses (node_of s).peers) in
      let s1 = on_node (insert_peer (record { conn = conn; addr = addr })) s in
      hello_dispatched conn id payload data' s sent
      ∙ >>=-eq-returned (handle_hello codec env conn payload)
          (Messaging.respond (handler_of codec env user answer) (invoke codec env user answer) conn
            (hello id payload))
          s (accepts conn addr payload s read room)
      ∙ responds conn id payload out data2 s1 written

  sent_hello :
      (b : TcpAddress) (payload data' : Bytes) (m : Messaging (ResponseHandler H))
      → Format.serialize (hello (suc m.last_message_id) payload) ≡ ok data'
      → (Messaging.send_message env.now b p2p_hello payload (some hello_response) none m).1.sent
        ≡ (b, data') ∷ m.sent
  unfolding Messaging.send_message Messaging.next_message_id Messaging.store_handler
      Messaging.transmit
  sent_hello b payload data' m e = rw e refl

  -- The response to a hello reaches the handler that takes the peer.
  hello_answered :
      (b : TcpAddress) (payload peer_list data2 : Bytes) (addrs : List TcpAddress)
      (m : Messaging (ResponseHandler H)) (w : P2pNode × A)
      → IsFresh m
      → Format.serialize (reply (suc m.last_message_id) (1 ∷ peer_list)) ≡ ok data2
      → parse_peer_list codec peer_list ≡ ok addrs
      → is_in b
          (node_of
            (receive codec env user answer b data2 (
              (Messaging.send_message env.now b p2p_hello payload (some hello_response) none m).1,
              w,
            )).1).peers
        ≡ true
  unfolding receive Messaging.safe_invoke invoke
  hello_answered b payload peer_list data2 addrs m w fresh e read =
      let (m', run, _) =
        response_reaches_handler (handler_of codec env user answer) (invoke codec env user answer)
          env.now b p2p_hello payload (1 ∷ peer_list) data2 hello_response none m w fresh e in
      ap (λ r. is_in b (node_of r.1).peers) run
      ∙ accepted-Has codec env b peer_list addrs (m', w) read

-- What a node reads of the address that another one sends.
own_address :
    (codec : Codec) (addr : TcpAddress)
    → codec.IsEncodable (address_to_str addr)
    → Lacks b':' addr.0
    → decode_address codec (codec.encode (address_to_str addr)) ≡ ok addr
unfolding decode_address
own_address codec addr enc plain =
    rw (codec.decode-encode (address_to_str addr) enc, parse_address-address_to_str addr plain) refl

module _ {H A : Type 0} (codec : Codec) (env env2 : Surroundings)
    (user user2 : Text → Option (P2pPeer → Bytes → Action (State H A) (Option Bytes)))
    (answer answer2 : H → P2pPeer → Option Bytes → Action (State H A) (Unit {0})) where
  -- A node connects to the address of another one, which is not its own and not that of a peer, and
  -- can be reached; it has ids of four bytes left and none of its requests has an id that is still
  -- to come; the other node has room, and the addresses of both and of the peers can be written and
  -- read. Then the connecting node sends one message; when this arrives, the other node does not
  -- raise, has the address of the first node among its peers, and sends one message back; and when
  -- that arrives, the first node has the address of the other one among its peers, whatever comes
  -- of the further addresses that it was told.
  pub handshake :
      (b conn : TcpAddress) (s t : State H A)
      → IsFresh s.0
      → suc s.0.last_message_id < 2 ^ 32
      → (b == (node_of s).addr) ≡ false
      → contains b (node_of s).peers_addr ≡ false
      → env.reachable b ≡ true
      → codec.IsEncodable (address_to_str (node_of s).addr)
      → Lacks b':' (node_of s).addr.0
      → length (node_of t).peers < (node_of t).max_peers * 2
      → All IsPlain (addresses (node_of t).peers)
      → codec.IsEncodable (join b',' (strings (addresses (node_of t).peers)))
      → (data' : Bytes) × (data2 : Bytes) × ((connect_to_peer codec env b s).1.0.sent
          ≡ (b, data') ∷ s.0.sent)
        × ((receive codec env2 user2 answer2 conn data' t).0 ≡ ok tt)
        × ((receive codec env2 user2 answer2 conn data' t).1.0.sent ≡ (conn, data2) ∷ t.0.sent)
        × (is_in (node_of s).addr (node_of (receive codec env2 user2 answer2 conn data' t).1).peers
            ≡ true)
        × (is_in b
              (node_of
                (receive codec env user answer b data2 (connect_to_peer codec env b s).1).1).peers
            ≡ true)
  handshake b conn s t fresh short other unknown there enc plain room plains enc2 =
      let own = (node_of s).addr in
      let payload = codec.encode (address_to_str own) in
      let peer_list = make_peer_list codec (addresses (node_of t).peers) in
      let id = suc s.0.last_message_id in
      let (data', written) = serialize_short (hello id payload) (omega arith) short in
      let (data2, written2) = serialize_short (reply id (1 ∷ peer_list)) (omega arith) short in
      let first = says_hello codec env b s other unknown there in
      let second =
        answers_hello codec env2 user2 answer2 conn own id payload data' data2 t written
          (own_address codec own enc plain) room written2 in
      (
        data',
        data2,
        ap (λ z. z.0.sent) first ∙ sent_hello codec env user answer b payload data' s.0 written,
        ap (λ r. r.0) second,
        ap (λ r. r.1.0.sent) second,
        ap (λ r. is_in own (node_of r.1).peers) second
            ∙ is_in-insert_peer own (record { conn = conn; addr = own }) (node_of t) refl,
        ap (λ z. is_in b (node_of (receive codec env user answer b data2 z).1).peers) first
            ∙ hello_answered codec env user answer b payload peer_list data2
                (addresses (node_of t).peers) s.0 (net_call (connect b) (node_of s), s.1.1) fresh
                written2
                (parse_peer_list-make_peer_list codec (addresses (node_of t).peers) plains enc2),
      )
