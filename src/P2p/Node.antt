-- ===== src/P2p/Node.antt =====
-- Class P2PNode of bcws/p2p.py: its messages and handlers, and the loop that keeps up the number of
-- its peers. The state is the messaging layer's, the node's and whatever else `A` stands for; `H`
-- stands for the response handlers of the node's users.
use blockchain_workshop.Prelude.{
  ℕ, ◌*◌, [], ◌∷◌, List, Bool, false, Option, none, some, ok, err, index_error, assertion_error,
  Action, Bytes, Text, codes, or_raise, length, leb, ltb, nat_eq, ◌==◌, if◌then◌else◌, pair_Eq,
  Bytes_eq, ℕ_eq,
}
use blockchain_workshop.Prelude.Int.{ℤ_eq}
use blockchain_workshop.Prelude.Dict.{lookup, contains}
use blockchain_workshop.Prelude.Actions.{pure, lift, gets, modify, ◌>>=◌, ◌>>◌}
use blockchain_workshop.Messaging
use blockchain_workshop.Messaging.{Messaging}
use blockchain_workshop.Network.Address.{TcpAddress, TcpAddress_eq, address_to_str}
use blockchain_workshop.P2p.PeerList.{Codec, decode_address, make_peer_list, parse_peer_list}
use blockchain_workshop.P2p.Peers.{
  P2pPeer, P2pNode, connect, disconnect, is_in, insert_peer, net_call, disconnect_peer,
}

abbrev pub p2p_hello : Text
p2p_hello = codes "p2p:hello"

abbrev pub p2p_get_peers : Text
p2p_get_peers = codes "p2p:get_peers"

-- The response handlers that the messaging layer is given.
pub data ResponseHandler (H : Type 0) : Type 0 where
  hello_response get_peers_response : ResponseHandler H
  wrapped : H → ResponseHandler H

-- What the node meets during one operation: the time, whether a connection to an address comes
-- about, and what random.shuffle and random.choice make of a list.
pub record Surroundings : Type 0 where
  pub now : ℕ
  pub reachable : TcpAddress → Bool
  pub shuffle : List TcpAddress → List TcpAddress
  pub choice : List P2pPeer → Option P2pPeer

-- `addr in self.peers`: an address equals no peer, since P2PPeer.__eq__ wants a P2PPeer.
abbrev pub address_is_in : TcpAddress → List P2pPeer → Bool
address_is_in addr ps = false

abbrev pub addresses : List P2pPeer → List TcpAddress
addresses [] = []
addresses (p ∷ ps) = p.addr ∷ addresses ps

abbrev pub State : Type 0 → Type 0 → Type 0
State H A = Messaging (ResponseHandler H) × (P2pNode × A)

-- _make_response_handler
abbrev pub make_response_handler : {H : Type 0} → Option H → Option (ResponseHandler H)
make_response_handler none = none
make_response_handler (some h) = some (wrapped h)

module _ {H A : Type 0} where
  abbrev pub node_of : State H A → P2pNode
  node_of s = s.1.0

  abbrev pub on_node : (P2pNode → P2pNode) → State H A → State H A
  on_node f (m, (n, a)) = (m, (f n, a))

  unfoldable pub mail :
      ℕ
      → TcpAddress
      → Text
      → Bytes
      → Option (ResponseHandler H)
      → Option ℕ
      → Action (State H A) (Unit {0})
  mail now conn kind payload handler timeout (m, w) =
      let (r, m') = Messaging.send_message now conn kind payload handler timeout m in (r, (m', w))

  unfoldable pub send_message :
      ℕ → P2pPeer → Text → Bytes → Option H → Option ℕ → Action (State H A) (Unit {0})
  send_message now peer kind payload handler timeout s =
      if is_in peer.addr (node_of s).peers
      then mail now peer.conn kind payload (make_response_handler handler) timeout s
      else (ok tt, s)

  -- The loop of broadcast_message.
  unfoldable pub send_each :
      ℕ
      → Text
      → Bytes
      → Option H
      → Option ℕ
      → List P2pPeer
      → List P2pPeer
      → Action (State H A) (Unit {0})
  send_each now kind payload handler timeout except_peers [] = pure tt
  send_each now kind payload handler timeout except_peers (p ∷ ps) =
      let rest = send_each now kind payload handler timeout except_peers ps in
      if is_in p.addr except_peers
      then rest
      else send_message now p kind payload handler timeout >> rest

  unfoldable pub broadcast_message :
      ℕ → Text → Bytes → Option H → Option ℕ → List P2pPeer → Action (State H A) (Unit {0})
  broadcast_message now kind payload handler timeout except_peers s =
      send_each now kind payload handler timeout except_peers (node_of s).peers s

  module _ (codec : Codec) (env : Surroundings) where
    unfoldable pub connect_to_peer : TcpAddress → Action (State H A) (Unit {0})
    connect_to_peer addr s =
        if addr == (node_of s).addr
        then (err assertion_error, s)
        else if contains addr (node_of s).peers_addr
        then (ok tt, s)
        else if env.reachable addr
        then mail env.now addr p2p_hello (codec.encode (address_to_str (node_of s).addr))
            (some hello_response) none (on_node (net_call (connect addr)) s)
        else (ok tt, on_node (net_call (connect addr)) s)

    -- The loop of _connect_to_peers, which a break leaves.
    unfoldable pub connect_loop : List TcpAddress → Action (State H A) (Unit {0})
    connect_loop [] s = (ok tt, s)
    connect_loop (addr ∷ addrs) s =
        let rest = connect_loop addrs in
        if leb (node_of s).max_peers (length (node_of s).peers)
        then (ok tt, s)
        else if addr == (node_of s).addr
        then rest s
        else (connect_to_peer addr >> rest) s

    unfoldable pub connect_to_peers : List TcpAddress → Action (State H A) (Unit {0})
    connect_to_peers addrs = connect_loop (env.shuffle addrs)

    -- The end of _handle_hello.
    unfoldable pub answer_hello : TcpAddress → TcpAddress → Action (State H A) (Option Bytes)
    answer_hello conn addr s =
        let peer_list = make_peer_list codec (addresses (node_of s).peers) in
        if ltb (length (node_of s).peers) ((node_of s).max_peers * 2)
        then (
          ok (some (1 ∷ peer_list)),
          on_node (insert_peer (record { conn = conn; addr = addr })) s,
        )
        else (ok (some (0 ∷ peer_list)), s)

    unfoldable pub handle_hello : TcpAddress → Bytes → Action (State H A) (Option Bytes)
    handle_hello conn payload = do
      addr ← lift (decode_address codec payload)
      n ← gets node_of
      if address_is_in addr n.peers then pure none else answer_hello conn addr

    -- The end of _handle_hello_response.
    unfoldable pub take_answer : TcpAddress → ℕ → List TcpAddress → Action (State H A) (Unit {0})
    take_answer conn b addrs s =
        connect_to_peers addrs
          (if nat_eq b 1 then on_node (insert_peer (record { conn = conn; addr = conn })) s else s)

    unfoldable pub handle_hello_response : TcpAddress → Option Bytes → Action (State H A) (Unit {0})
    handle_hello_response conn none = modify (on_node (net_call (disconnect conn)))
    handle_hello_response conn (some []) = modify (on_node (net_call (disconnect conn)))
    handle_hello_response conn (some (b ∷ resp)) = do
      addrs ← lift (parse_peer_list codec resp)
      take_answer conn b addrs

    unfoldable pub handle_get_peers : TcpAddress → Bytes → Action (State H A) (Option Bytes)
    handle_get_peers conn payload =
        gets (λ s. some (make_peer_list codec (addresses (node_of s).peers)))

    unfoldable pub handle_get_peers_response :
        TcpAddress → Option Bytes → Action (State H A) (Unit {0})
    handle_get_peers_response conn none = pure tt
    handle_get_peers_response conn (some resp) = do
      addrs ← lift (parse_peer_list codec resp)
      connect_to_peers addrs

    -- The loop of _peer_loop when there are too few peers.
    unfoldable pub ask_each : List P2pPeer → Action (State H A) (Unit {0})
    ask_each [] = pure tt
    ask_each (p ∷ ps) =
        mail env.now p.conn p2p_get_peers [] (some get_peers_response) none >> ask_each ps

    unfoldable pub peer_loop : Action (State H A) (Unit {0})
    peer_loop s =
        let n = node_of s in
        if nat_eq (length n.peers) 0
        then connect_to_peers n.bootstrap_nodes s
        else if ltb (length n.peers) n.min_peers
        then ask_each n.peers s
        else if ltb n.max_peers (length n.peers)
        then (do
          peer ← lift (or_raise index_error (env.choice n.peers))
          modify (on_node (disconnect_peer peer)))
            s
        else (ok tt, s)

    -- The loop of start over the bootstrap nodes.
    unfoldable pub connect_each : List TcpAddress → Action (State H A) (Unit {0})
    connect_each [] = pure tt
    connect_each (addr ∷ addrs) = connect_to_peer addr >> connect_each addrs

    -- The handlers of the node's users: for a kind of message, and for a response.
    module _ (user : Text → Option (P2pPeer → Bytes → Action (State H A) (Option Bytes)))
        (answer : H → P2pPeer → Option Bytes → Action (State H A) (Unit {0})) where
      -- What _make_handler makes of a handler.
      unfoldable pub make_handler :
          (P2pPeer → Bytes → Action (State H A) (Option Bytes))
          → TcpAddress
          → Bytes
          → Action (State H A) (Option Bytes)
      make_handler handler conn data' s = elim (lookup conn (node_of s).peers_conn) [
        | none ↦ (ok none, s)
        | some peer ↦ handler peer data' s
      ]

      abbrev pub user_handler :
          Option (P2pPeer → Bytes → Action (State H A) (Option Bytes))
          → Option (TcpAddress → Bytes → Action (State H A) (Option Bytes))
      user_handler none = none
      user_handler (some handler) = some (make_handler handler)

      -- The table of the message handlers.
      unfoldable pub handler_of :
          Text → Option (TcpAddress → Bytes → Action (State H A) (Option Bytes))
      handler_of kind =
          if kind == p2p_hello
          then some handle_hello
          else if kind == p2p_get_peers
          then some handle_get_peers
          else user_handler (user kind)

      unfoldable pub invoke :
          ResponseHandler H → TcpAddress → Option Bytes → Action (State H A) (Unit {0})
      invoke hello_response conn resp s = handle_hello_response conn resp s
      invoke get_peers_response conn resp s = handle_get_peers_response conn resp s
      invoke (wrapped h) conn resp s = elim (lookup conn (node_of s).peers_conn) [
        | none ↦ (ok tt, s)
        | some peer ↦ answer h peer resp s
      ]

      -- A message that arrives, and the timeouts of the messaging layer.
      unfoldable pub receive : TcpAddress → Bytes → Action (State H A) (Unit {0})
      receive conn data' = Messaging.handle_message handler_of invoke conn data'

      unfoldable pub expire : State H A → State H A
      expire s = Messaging.process_timeouts handler_of invoke env.now s
