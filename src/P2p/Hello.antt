-- ===== src/P2p/Hello.antt =====
-- What the hello messages of bcws/p2p.py do to the peers.
use blockchain_workshop.Prelude.{
  ℕ, suc, ◌*◌, ◌≤◌, ◌<◌, List, ◌≡◌, ◌≢◌, refl, sym, ap, ◌∙◌, inl, inr, true, false, Option, some,
  ok, Action, Bytes, Text, length, Bool-cases, Result-cases, ◌==◌, ==_refl, ==-cases, ltb, pair_Eq,
  Bytes_eq, arith,
}
use blockchain_workshop.Prelude.Dict.{lookup, insert, lookup-insert, lookup-remove}
use blockchain_workshop.Network.Address.{TcpAddress, TcpAddress_eq}
use blockchain_workshop.P2p.PeerList.{Codec, decode_address}
use blockchain_workshop.P2p.Peers.{
  P2pPeer, P2pNode, is_in, add, insert_peer, remove_peer, on_disconnect,
}
use blockchain_workshop.P2p.Node.{
  State, Surroundings, node_of, on_node, handle_hello, answer_hello, make_handler, send_message,
}
use blockchain_workshop.P2p.Tables.{is_in-discard}

ltb_less : {a b : ℕ} → ltb a b ≡ true → a < b
ltb_less h = ground arith

length-add : (p : P2pPeer) (ps : List P2pPeer) → length (add p ps) ≤ suc (length ps)
unfolding add
length-add p ps = elim (Bool-cases (is_in p.addr ps)) [
  | inl t ↦ rw (add, t) (omega arith)
  | inr t ↦ rw (add, t) (omega arith)
]

module _ (c1 c2 addr : TcpAddress) (n : P2pNode) where
  abbrev twice : P2pNode
  twice =
      insert_peer (record { conn = c2; addr = addr })
        (insert_peer (record { conn = c1; addr = addr }) n)

  last_wins : lookup c2 twice.peers_conn ≡ some (record { conn = c2; addr = addr })
  unfolding insert_peer
  last_wins =
      rw
        (
          lookup-insert c2 c2 (record { conn = c2; addr = addr })
              (insert c1 (record { conn = c1; addr = addr }) n.peers_conn),
          ==_refl c2,
        )
        refl

  module _ (other : c1 ≢ c2) where
    differs : (c2 == c1) ≡ false
    differs = elim (==-cases c2 c1) [ inl (e, _) ↦ absurd (other (sym e)) | inr (_, t) ↦ t ]

    stale :
        (is_in addr (on_disconnect c2 false twice).peers ≡ false)
        × (lookup c1 (on_disconnect c2 false twice).peers_conn
            ≡ some (record { conn = c1; addr = addr }))
    unfolding on_disconnect remove_peer insert_peer
    stale =
        rw (on_disconnect, last_wins)
          (
            rw (is_in-discard addr addr twice.peers, ==_refl addr) refl,
            rw
                (
                  lookup-remove c2 c1 twice.peers_conn,
                  differs,
                  lookup-insert c2 c1 (record { conn = c2; addr = addr })
                      (insert c1 (record { conn = c1; addr = addr }) n.peers_conn),
                  differs,
                  lookup-insert c1 c1 (record { conn = c1; addr = addr }) n.peers_conn,
                  ==_refl c1,
                )
                refl,
          )

module _ {H A : Type 0} (codec : Codec) (env : Surroundings) where
  pub hello_decoded :
      (conn addr : TcpAddress) (payload : Bytes) (s : State H A)
      → decode_address codec payload ≡ ok addr
      → handle_hello codec env conn payload s ≡ answer_hello codec env conn addr s
  unfolding handle_hello
  hello_decoded conn addr payload s e = rw e refl

  hello_accepted :
      (conn addr : TcpAddress) (payload : Bytes) (s : State H A)
      → decode_address codec payload ≡ ok addr
      → length (node_of s).peers < (node_of s).max_peers * 2
      → (handle_hello codec env conn payload s).1
        ≡ on_node (insert_peer (record { conn = conn; addr = addr })) s
  unfolding answer_hello
  hello_accepted conn addr payload s e room =
      ap (λ r. r.1) (hello_decoded conn addr payload s e) ∙ ground arith

  -- A hello, whatever it holds, takes the peers to no more than twice max_peers when they were not
  -- more before, and adds at most one.
  pub handle_hello_bound :
      (conn : TcpAddress) (payload : Bytes) (s : State H A)
      → length (node_of s).peers ≤ (node_of s).max_peers * 2
      → (length (node_of (handle_hello codec env conn payload s).1).peers
          ≤ (node_of s).max_peers * 2)
        × (length (node_of (handle_hello codec env conn payload s).1).peers
            ≤ suc (length (node_of s).peers))
  unfolding handle_hello answer_hello insert_peer add
  handle_hello_bound conn payload s h = elim (Result-cases (decode_address codec payload)) [
    | inr (x, e) ↦ rw (handle_hello, e) (h, omega arith)
    | inl (addr, e) ↦
        elim (Bool-cases (ltb (length (node_of s).peers) ((node_of s).max_peers * 2))) [
          | inl t ↦
              let l = length-add (record { conn = conn; addr = addr }) (node_of s).peers in
              rw (handle_hello, e, answer_hello, t) (omega (arith, l, ltb_less t), l)
          | inr t ↦ rw (handle_hello, e, answer_hello, t) (h, omega arith)
        ]
  ]

  -- The same address says hello on two connections, and the second one is lost.
  abbrev pub hello_twice : TcpAddress → TcpAddress → Bytes → State H A → State H A
  hello_twice c1 c2 payload s =
      on_node (on_disconnect c2 false)
        (handle_hello codec env c2 payload (handle_hello codec env c1 payload s).1).1

  stale_state :
      (c1 c2 addr : TcpAddress) (payload : Bytes) (s : State H A)
      → decode_address codec payload ≡ ok addr
      → suc (length (node_of s).peers) < (node_of s).max_peers * 2
      → hello_twice c1 c2 payload s ≡ on_node (λ n. on_disconnect c2 false (twice c1 c2 addr n)) s
  unfolding insert_peer
  stale_state c1 c2 addr payload s e room =
      let p1 : P2pPeer = record { conn = c1; addr = addr } in
      let first = hello_accepted c1 addr payload s e (omega arith) in
      let l = length-add p1 (node_of s).peers in
      ap (λ z. on_node (on_disconnect c2 false) (handle_hello codec env c2 payload z).1) first
      ∙ ap (on_node (on_disconnect c2 false))
          (hello_accepted c2 addr payload (on_node (insert_peer p1) s) e (omega arith))

  module _ (user : Text → Option (P2pPeer → Bytes → Action (State H A) (Option Bytes)))
      (answer : H → P2pPeer → Option Bytes → Action (State H A) (Unit {0})) where
    -- The tables tell who is handled and who is sent to.
    of_tables :
        (p : P2pPeer) (s : State H A)
        → is_in p.addr (node_of s).peers ≡ false
        → lookup p.conn (node_of s).peers_conn ≡ some p
        → (handler : P2pPeer → Bytes → Action (State H A) (Option Bytes)) (now : ℕ) (kind : Text)
          (data' : Bytes) (h : Option H) (timeout : Option ℕ)
        → (is_in p.addr (node_of s).peers ≡ false)
          × (send_message now p kind data' h timeout s ≡ (ok tt, s))
          × (make_handler codec env user answer handler p.conn data' s ≡ handler p data' s)
    unfolding make_handler send_message
    of_tables p s gone there handler now kind data' h timeout =
        (gone, rw (send_message, gone) refl, rw (make_handler, there) refl)

    -- An address says hello on two connections, both are accepted, and the second
    -- connection is lost. Then the address is no peer any more, and a message to the peer of the
    -- first connection is dropped; but what arrives on this connection is still handed to the
    -- handlers of messages, as from that peer.
    pub hello_twice_lem :
        (c1 c2 addr : TcpAddress) (payload : Bytes) (s : State H A)
        (handler : P2pPeer → Bytes → Action (State H A) (Option Bytes)) (now : ℕ) (kind : Text)
        (data' : Bytes) (h : Option H) (timeout : Option ℕ)
        → c1 ≢ c2
        → decode_address codec payload ≡ ok addr
        → suc (length (node_of s).peers) < (node_of s).max_peers * 2
        → (is_in addr (node_of (hello_twice c1 c2 payload s)).peers ≡ false)
          × (send_message now
                (record { conn = c1; addr = addr })
                kind
                data'
                h
                timeout
                (hello_twice c1 c2 payload s)
              ≡ (ok tt, hello_twice c1 c2 payload s))
          × (make_handler codec env user answer handler c1 data' (hello_twice c1 c2 payload s)
              ≡ handler (record { conn = c1; addr = addr }) data' (hello_twice c1 c2 payload s))
    hello_twice_lem c1 c2 addr payload s handler now kind data' h timeout other e room =
        let (gone, there) = stale c1 c2 addr (node_of s) other in
        let run = stale_state c1 c2 addr payload s e room in
        of_tables (record { conn = c1; addr = addr }) (hello_twice c1 c2 payload s)
          (ap (λ z. is_in addr (node_of z).peers) run ∙ gone)
          (ap (λ z. lookup c1 (node_of z).peers_conn) run ∙ there) handler now kind data' h timeout
