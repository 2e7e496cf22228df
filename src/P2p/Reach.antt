-- ===== src/P2p/Reach.antt =====
-- What the methods of class P2PNode do to its set of peers and its tables.
use blockchain_workshop.Prelude.{
  ℕ, ◌*◌, [], ◌∷◌, List, inl, inr, Option, none, some, ok, Action, Bytes, Text, Bool-cases, ◌==◌,
  leb, ltb, nat_eq, length, or_raise, index_error,
}
use blockchain_workshop.Prelude.Dict.{contains}
use blockchain_workshop.Prelude.Actions.{lift, keeps_bind}
use blockchain_workshop.Network.Address.{TcpAddress, TcpAddress_eq}
use blockchain_workshop.P2p.PeerList.{Codec, decode_address, parse_peer_list}
use blockchain_workshop.P2p.Peers.{P2pPeer, P2pNode, NetCall, connect, disconnect, disconnect_peer}
use blockchain_workshop.P2p.Peers
use blockchain_workshop.P2p.Node.{
  ResponseHandler, Surroundings, State, node_of, on_node, mail, send_message, send_each,
  broadcast_message, connect_to_peer, connect_loop, connect_to_peers, answer_hello, handle_hello,
  take_answer, handle_hello_response, handle_get_peers, handle_get_peers_response, ask_each,
  peer_loop,
}
use blockchain_workshop.P2p.Tables.{
  IsConsistent, insert_peer-IsConsistent, net_call-IsConsistent, disconnect_peer-IsConsistent,
}

-- An action that leaves the tables in agreement, also when it raises.
abbrev pub Keeps : {X H A : Type 0} → Action (State H A) X → Type 0
Keeps {H = H} {A = A} f =
    (s : State H A) → IsConsistent (node_of s) → IsConsistent (node_of (f s).1)

module _ {H A : Type 0} where
  abbrev Good : State H A → Type 0
  Good s = IsConsistent (node_of s)

  mail-Keeps :
      (now : ℕ) (conn : TcpAddress) (kind : Text) (payload : Bytes)
      (handler : Option (ResponseHandler H)) (timeout : Option ℕ)
      → Keeps {H = H} {A = A} (mail now conn kind payload handler timeout)
  unfolding mail
  mail-Keeps now conn kind payload handler timeout s g = g

  pub send_message-Keeps :
      (now : ℕ) (peer : P2pPeer) (kind : Text) (payload : Bytes) (handler : Option H)
      (timeout : Option ℕ)
      → Keeps {H = H} {A = A} (send_message now peer kind payload handler timeout)
  unfolding send_message
  send_message-Keeps now peer kind payload handler timeout s g =
      elim (Bool-cases (Peers.is_in peer.addr (node_of s).peers)) [
        | inl t ↦ rw (send_message, t) (mail-Keeps now peer.conn kind payload _ timeout s g)
        | inr t ↦ rw (send_message, t) g
      ]

  module _ (codec : Codec) (env : Surroundings) where
    pub connect_to_peer-Keeps :
        (addr : TcpAddress) → Keeps {H = H} {A = A} (connect_to_peer codec env addr)
    unfolding connect_to_peer
    connect_to_peer-Keeps addr s g = elim (Bool-cases (addr == (node_of s).addr)) [
      | inl t ↦ rw (connect_to_peer, t) g
      | inr t ↦ elim (Bool-cases (contains addr (node_of s).peers_addr)) [
        | inl u ↦ rw (connect_to_peer, t, u) g
        | inr u ↦ elim (Bool-cases (env.reachable addr)) [
          | inl v ↦
              rw (connect_to_peer, t, u, v)
                (mail-Keeps env.now addr _ _ _ _ _
                  (net_call-IsConsistent (connect addr) (node_of s) g))
          | inr v ↦
              rw (connect_to_peer, t, u, v) (net_call-IsConsistent (connect addr) (node_of s) g)
        ]
      ]
    ]

    connect_loop-Keeps :
        (addrs : List TcpAddress) → Keeps {H = H} {A = A} (connect_loop codec env addrs)
    unfolding connect_loop
    connect_loop-Keeps [] s g = g
    connect_loop-Keeps (addr ∷ addrs) s g =
        elim (Bool-cases (leb (node_of s).max_peers (length (node_of s).peers))) [
          | inl t ↦ rw (connect_loop, t) g
          | inr t ↦ elim (Bool-cases (addr == (node_of s).addr)) [
            | inl u ↦ rw (connect_loop, t, u) (connect_loop-Keeps addrs s g)
            | inr u ↦
                rw (connect_loop, t, u)
                  (keeps_bind Good (λ _. connect_loop codec env addrs)
                    (connect_to_peer codec env addr) s (connect_to_peer-Keeps addr s g)
                    (λ _ _. connect_loop-Keeps addrs _ (connect_to_peer-Keeps addr s g)))
          ]
        ]

    connect_to_peers-Keeps :
        (addrs : List TcpAddress) → Keeps {H = H} {A = A} (connect_to_peers codec env addrs)
    unfolding connect_to_peers
    connect_to_peers-Keeps addrs s g = connect_loop-Keeps (env.shuffle addrs) s g

    answer_hello-Keeps :
        (conn addr : TcpAddress) → Keeps {H = H} {A = A} (answer_hello codec env conn addr)
    unfolding answer_hello
    answer_hello-Keeps conn addr s g =
        elim (Bool-cases (ltb (length (node_of s).peers) ((node_of s).max_peers * 2))) [
          | inl t ↦
              rw (answer_hello, t)
                (insert_peer-IsConsistent (record { conn = conn; addr = addr }) (node_of s) g)
          | inr t ↦ rw (answer_hello, t) g
        ]

    pub handle_hello-Keeps :
        (conn : TcpAddress) (payload : Bytes)
        → Keeps {H = H} {A = A} (handle_hello codec env conn payload)
    unfolding handle_hello
    handle_hello-Keeps conn payload s g =
        keeps_bind Good (answer_hello codec env conn) (lift (decode_address codec payload)) s g
          (λ addr _. answer_hello-Keeps conn addr s g)

    take_answer-Keeps :
        (conn : TcpAddress) (b : ℕ) (addrs : List TcpAddress)
        → Keeps {H = H} {A = A} (take_answer codec env conn b addrs)
    unfolding take_answer
    take_answer-Keeps conn b addrs s g = elim (Bool-cases (nat_eq b 1)) [
      | inl t ↦
          rw (take_answer, t)
            (connect_to_peers-Keeps addrs _
              (insert_peer-IsConsistent (record { conn = conn; addr = conn }) (node_of s) g))
      | inr t ↦ rw (take_answer, t) (connect_to_peers-Keeps addrs s g)
    ]

    pub handle_hello_response-Keeps :
        (conn : TcpAddress) (resp : Option Bytes)
        → Keeps {H = H} {A = A} (handle_hello_response codec env conn resp)
    unfolding handle_hello_response
    handle_hello_response-Keeps conn none s g =
        net_call-IsConsistent (disconnect conn) (node_of s) g
    handle_hello_response-Keeps conn (some []) s g =
        net_call-IsConsistent (disconnect conn) (node_of s) g
    handle_hello_response-Keeps conn (some (b ∷ resp)) s g =
        keeps_bind Good (take_answer codec env conn b) (lift (parse_peer_list codec resp)) s g
          (λ addrs _. take_answer-Keeps conn b addrs s g)

    pub handle_get_peers_response-Keeps :
        (conn : TcpAddress) (resp : Option Bytes)
        → Keeps {H = H} {A = A} (handle_get_peers_response codec env conn resp)
    unfolding handle_get_peers_response
    handle_get_peers_response-Keeps conn none s g = g
    handle_get_peers_response-Keeps conn (some resp) s g =
        keeps_bind Good (connect_to_peers codec env) (lift (parse_peer_list codec resp)) s g
          (λ addrs _. connect_to_peers-Keeps addrs s g)

    ask_each-Keeps : (ps : List P2pPeer) → Keeps {H = H} {A = A} (ask_each codec env ps)
    unfolding ask_each
    ask_each-Keeps [] s g = g
    ask_each-Keeps (p ∷ ps) s g =
        keeps_bind Good (λ _. ask_each codec env ps) (mail env.now p.conn _ _ _ _) s
          (mail-Keeps env.now p.conn _ _ _ _ s g)
          (λ _ _. ask_each-Keeps ps _ (mail-Keeps env.now p.conn _ _ _ _ s g))

    pub peer_loop-Keeps : Keeps {H = H} {A = A} (peer_loop codec env)
    unfolding peer_loop
    peer_loop-Keeps s g = elim (Bool-cases (nat_eq (length (node_of s).peers) 0)) [
      | inl t ↦ rw (peer_loop, t) (connect_to_peers-Keeps (node_of s).bootstrap_nodes s g)
      | inr t ↦ elim (Bool-cases (ltb (length (node_of s).peers) (node_of s).min_peers)) [
        | inl u ↦ rw (peer_loop, t, u) (ask_each-Keeps (node_of s).peers s g)
        | inr u ↦ elim (Bool-cases (ltb (node_of s).max_peers (length (node_of s).peers))) [
          | inl v ↦
              rw (peer_loop, t, u, v)
                (keeps_bind Good (λ peer z. (ok tt, on_node (disconnect_peer peer) z))
                  (lift (or_raise index_error (env.choice (node_of s).peers))) s g
                  (λ peer _. disconnect_peer-IsConsistent peer (node_of s) g))
          | inr v ↦ rw (peer_loop, t, u, v) g
        ]
      ]
    ]

    pub handle_get_peers-Keeps :
        (conn : TcpAddress) (payload : Bytes)
        → Keeps {H = H} {A = A} (handle_get_peers codec env conn payload)
    unfolding handle_get_peers
    handle_get_peers-Keeps conn payload s g = g

  module _ (now : ℕ) (kind : Text) (payload : Bytes) (handler : Option H) (timeout : Option ℕ)
      (except_peers : List P2pPeer) where
    send_each-Keeps :
        (ps : List P2pPeer)
        → Keeps {H = H} {A = A} (send_each now kind payload handler timeout except_peers ps)
    unfolding send_each
    send_each-Keeps [] s g = g
    send_each-Keeps (p ∷ ps) s g = elim (Bool-cases (Peers.is_in p.addr except_peers)) [
      | inl t ↦ rw (send_each, t) (send_each-Keeps ps s g)
      | inr t ↦
          rw (send_each, t)
            (keeps_bind Good (λ _. send_each now kind payload handler timeout except_peers ps)
              (send_message now p kind payload handler timeout) s
              (send_message-Keeps now p kind payload handler timeout s g)
              (λ _ _.
                send_each-Keeps ps _ (send_message-Keeps now p kind payload handler timeout s g)))
    ]

    pub broadcast_message-Keeps :
        Keeps {H = H} {A = A} (broadcast_message now kind payload handler timeout except_peers)
    unfolding broadcast_message
    broadcast_message-Keeps s g = send_each-Keeps (node_of s).peers s g
