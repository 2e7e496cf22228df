-- ===== src/P2p/Runs.antt =====
-- The runs of a P2PNode: what its users, the network and its own loop do to it, in any order. The
-- locks and threads of the program are not there: each step runs alone.
use mathlib.Core.Path.{subst}
use blockchain_workshop.Prelude.{
  ℕ, List, ◌≡◌, inl, inr, Bool, Option, none, some, Action, Bytes, Text, Bool-cases, Option-cases,
  ◌==◌, Bytes_eq,
}
use blockchain_workshop.Prelude.Dict.{lookup}
use blockchain_workshop.Messaging.Keeping.{handle_message-keeps, process_timeouts-keeps}
use blockchain_workshop.Messaging
use blockchain_workshop.Network.Address.{TcpAddress, TcpAddress_eq}
use blockchain_workshop.P2p.PeerList.{Codec}
use blockchain_workshop.P2p.Peers
use blockchain_workshop.P2p.Peers.{P2pPeer, P2pNode, on_disconnect, disconnect_peer}
use blockchain_workshop.P2p.Node.{
  ResponseHandler, hello_response, get_peers_response, wrapped, Surroundings, State, node_of,
  on_node, send_message, broadcast_message, connect_to_peer, peer_loop, make_handler, handler_of,
  invoke, receive, expire, p2p_hello, p2p_get_peers,
}
use blockchain_workshop.P2p.Tables.{
  IsConsistent, new-IsConsistent, disconnect_peer-IsConsistent, on_disconnect-IsConsistent,
}
use blockchain_workshop.P2p.Reach.{
  Keeps, send_message-Keeps, broadcast_message-Keeps, connect_to_peer-Keeps, handle_hello-Keeps,
  handle_hello_response-Keeps, handle_get_peers-Keeps, handle_get_peers_response-Keeps,
  peer_loop-Keeps,
}

module _ {H A : Type 0} (codec : Codec)
    (user : Text → Option (P2pPeer → Bytes → Action (State H A) (Option Bytes)))
    (answer : H → P2pPeer → Option Bytes → Action (State H A) (Unit {0})) where
  -- The handlers of the node's users change its tables by its own operations only.
  pub record HandlersKeep : Type 0 where
    pub messages :
        (kind : Text) (f : P2pPeer → Bytes → Action (State H A) (Option Bytes))
        → user kind ≡ some f
        → (p : P2pPeer) (data' : Bytes) → Keeps {H = H} {A = A} (f p data')
    pub responses :
        (h : H) (p : P2pPeer) (resp : Option Bytes) → Keeps {H = H} {A = A} (answer h p resp)

  pub data Step : State H A → State H A → Type 0 where
    arrival :
        (env : Surroundings) (conn : TcpAddress) (data' : Bytes) (s : State H A)
        → Step s (receive codec env user answer conn data' s).1
    timeouts : (env : Surroundings) (s : State H A) → Step s (expire codec env user answer s)
    lost :
        (conn : TcpAddress) (initiated : Bool) (s : State H A)
        → Step s (on_node (on_disconnect conn initiated) s)
    loop : (env : Surroundings) (s : State H A) → Step s (peer_loop codec env s).1
    connecting :
        (env : Surroundings) (addr : TcpAddress) (s : State H A)
        → Step s (connect_to_peer codec env addr s).1
    disconnecting : (p : P2pPeer) (s : State H A) → Step s (on_node (disconnect_peer p) s)
    sending :
        (now : ℕ) (p : P2pPeer) (kind : Text) (payload : Bytes) (handler : Option H)
        (timeout : Option ℕ) (s : State H A)
        → Step s (send_message now p kind payload handler timeout s).1
    broadcasting :
        (now : ℕ) (kind : Text) (payload : Bytes) (handler : Option H) (timeout : Option ℕ)
        (except_peers : List P2pPeer) (s : State H A)
        → Step s (broadcast_message now kind payload handler timeout except_peers s).1

  -- The states after P2PNode(net, msg, max_peers, bootstrap_nodes) and any number of steps.
  pub data Reached : State H A → Type 0 where
    created :
        (addr : TcpAddress) (max_peers : ℕ) (bootstrap : List TcpAddress) (a : A)
        → Reached (Messaging.new, (Peers.new addr max_peers bootstrap, a))
    after : (s t : State H A) → Reached s → Step s t → Reached t

  module _ (k : HandlersKeep) where
    abbrev HandlerKeeps : Option (TcpAddress → Bytes → Action (State H A) (Option Bytes)) → Type 0
    HandlerKeeps none = Unit {0}
    HandlerKeeps (some f) =
        (conn : TcpAddress) (data' : Bytes) → Keeps {H = H} {A = A} (f conn data')

    make_handler-Keeps :
        (env : Surroundings) (f : P2pPeer → Bytes → Action (State H A) (Option Bytes))
        → ((p : P2pPeer) (data' : Bytes) → Keeps {H = H} {A = A} (f p data'))
        → HandlerKeeps (some (make_handler codec env user answer f))
    unfolding make_handler
    make_handler-Keeps env f h conn data' s g =
        elim (Option-cases (lookup conn (node_of s).peers_conn)) [
          | inl e ↦ rw (make_handler, e) g
          | inr (p, e) ↦ rw (make_handler, e) (h p data' s g)
        ]

    table-HandlerKeeps :
        (env : Surroundings) (kind : Text) → HandlerKeeps (handler_of codec env user answer kind)
    unfolding handler_of
    table-HandlerKeeps env kind = elim (Bool-cases (kind == p2p_hello)) [
      | inl t ↦ rw (handler_of, t) (handle_hello-Keeps codec env)
      | inr t ↦ elim (Bool-cases (kind == p2p_get_peers)) [
        | inl u ↦ rw (handler_of, t, u) (handle_get_peers-Keeps codec env)
        | inr u ↦ elim (Option-cases (user kind)) [
          | inl e ↦ rw (handler_of, t, u, e) tt
          | inr (f, e) ↦ rw (handler_of, t, u, e) (make_handler-Keeps env f (k.messages kind f e))
        ]
      ]
    ]

    handler-Keeps :
        (env : Surroundings) (kind : Text)
        (f : TcpAddress → Bytes → Action (State H A) (Option Bytes))
        → handler_of codec env user answer kind ≡ some f
        → HandlerKeeps (some f)
    handler-Keeps env kind f e = subst HandlerKeeps e (table-HandlerKeeps env kind)

    invoke-Keeps :
        (env : Surroundings) (h : ResponseHandler H) (conn : TcpAddress) (resp : Option Bytes)
        → Keeps {H = H} {A = A} (invoke codec env user answer h conn resp)
    unfolding invoke
    invoke-Keeps env hello_response conn resp s g =
        handle_hello_response-Keeps codec env conn resp s g
    invoke-Keeps env get_peers_response conn resp s g =
        handle_get_peers_response-Keeps codec env conn resp s g
    invoke-Keeps env (wrapped h) conn resp s g =
        elim (Option-cases (lookup conn (node_of s).peers_conn)) [
          | inl e ↦ rw (invoke, e) g
          | inr (p, e) ↦ rw (invoke, e) (k.responses h p resp s g)
        ]

    Step-IsConsistent :
        (s t : State H A) → Step s t → IsConsistent (node_of s) → IsConsistent (node_of t)
    unfolding receive expire
    Step-IsConsistent s _ (arrival env conn data' _) g =
        handle_message-keeps (λ w. IsConsistent w.0) (handler_of codec env user answer)
          (invoke codec env user answer) (handler-Keeps env) (invoke-Keeps env) conn data' s g
    Step-IsConsistent s _ (timeouts env _) g =
        process_timeouts-keeps (λ w. IsConsistent w.0) (handler_of codec env user answer)
          (invoke codec env user answer) (handler-Keeps env) (invoke-Keeps env) env.now s g
    Step-IsConsistent s _ (lost conn initiated _) g =
        on_disconnect-IsConsistent conn initiated (node_of s) g
    Step-IsConsistent s _ (loop env _) g = peer_loop-Keeps codec env s g
    Step-IsConsistent s _ (connecting env addr _) g = connect_to_peer-Keeps codec env addr s g
    Step-IsConsistent s _ (disconnecting p _) g = disconnect_peer-IsConsistent p (node_of s) g
    Step-IsConsistent s _ (sending now p kind payload handler timeout _) g =
        send_message-Keeps now p kind payload handler timeout s g
    Step-IsConsistent s _ (broadcasting now kind payload handler timeout except_peers _) g =
        broadcast_message-Keeps now kind payload handler timeout except_peers s g

    -- When the handlers of the node's users leave its tables in agreement, then so is every state
    -- that a new node reaches through messages, timeouts, lost connections, rounds of its loop and
    -- the calls of its users, in any order and also where these raise: no two peers have the same
    -- address, the table by address holds exactly the addresses of the peers, and the entries of
    -- both tables stand under the address and the connection of the peer that they hold.
    pub Reached-IsConsistent : (s : State H A) → Reached s → IsConsistent (node_of s)
    Reached-IsConsistent _ (created addr max_peers bootstrap a) =
        new-IsConsistent addr max_peers bootstrap
    Reached-IsConsistent _ (after s t r step) =
        Step-IsConsistent s t step (Reached-IsConsistent s r)
