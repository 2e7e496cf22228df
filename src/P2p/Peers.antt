-- ===== src/P2p/Peers.antt =====
-- The tables of class P2PNode of bcws/p2p.py. A connection is known by its address, by which
-- TcpConnection.__eq__ compares; the set of peers is a list in which an address stands once, since
-- P2PPeer.__eq__ compares addresses, in the order in which the set is gone through. The calls of
-- the TCP layer are a list, the last call first.
use blockchain_workshop.Prelude.{
  ℕ, ◌/◌, [], ◌∷◌, List, Bool, true, false, none, some, ◌==◌, if◌then◌else◌, pair_Eq, Bytes_eq,
}
use blockchain_workshop.Prelude.Int.{ℤ_eq}
use blockchain_workshop.Prelude.Dict.{Dict, lookup, insert, remove}
use blockchain_workshop.Network.Address.{TcpAddress, TcpAddress_eq}

pub record P2pPeer : Type 0 where
  pub conn : TcpAddress
  pub addr : TcpAddress

-- connect and disconnect of TcpServer
pub data NetCall : Type 0 where
  connect disconnect : TcpAddress → NetCall

pub record P2pNode : Type 0 where
  -- net.addr
  pub addr : TcpAddress
  pub min_peers : ℕ
  pub max_peers : ℕ
  pub bootstrap_nodes : List TcpAddress
  pub peers : List P2pPeer
  pub peers_addr : Dict TcpAddress P2pPeer
  pub peers_conn : Dict TcpAddress P2pPeer
  pub calls : List NetCall

abbrev pub new : TcpAddress → ℕ → List TcpAddress → P2pNode
new addr max_peers bootstrap_nodes = record {
  addr = addr;
  min_peers = max_peers / 2;
  max_peers = max_peers;
  bootstrap_nodes = bootstrap_nodes;
  peers = [];
  peers_addr = [];
  peers_conn = [];
  calls = [];
}

-- peer in peers
unfoldable pub is_in : TcpAddress → List P2pPeer → Bool
is_in addr [] = false
is_in addr (p ∷ ps) = if p.addr == addr then true else is_in addr ps

-- peers.discard(peer)
unfoldable pub discard : TcpAddress → List P2pPeer → List P2pPeer
discard addr [] = []
discard addr (p ∷ ps) = let rest = discard addr ps in if p.addr == addr then rest else p ∷ rest

-- peers.add(peer): an equal peer that is there stays.
unfoldable pub add : P2pPeer → List P2pPeer → List P2pPeer
add p ps = if is_in p.addr ps then ps else p ∷ ps

unfoldable pub insert_peer : P2pPeer → P2pNode → P2pNode
insert_peer p n = record n {
  peers = add p n.peers;
  peers_conn = insert p.conn p n.peers_conn;
  peers_addr = insert p.addr p n.peers_addr;
}

unfoldable pub remove_peer : P2pPeer → P2pNode → P2pNode
remove_peer p n = record n {
  peers = discard p.addr n.peers;
  peers_conn = remove p.conn n.peers_conn;
  peers_addr = remove p.addr n.peers_addr;
}

unfoldable pub net_call : NetCall → P2pNode → P2pNode
net_call c n = record n { calls = c ∷ n.calls }

-- The disconnect of the TCP layer tells on_disconnect, which returns at once.
unfoldable pub disconnect_peer : P2pPeer → P2pNode → P2pNode
disconnect_peer p n = net_call (disconnect p.conn) (remove_peer p n)

unfoldable pub on_disconnect : TcpAddress → Bool → P2pNode → P2pNode
on_disconnect conn true n = n
on_disconnect conn false n = elim (lookup conn n.peers_conn) [ none ↦ n | some p ↦ remove_peer p n ]

-- The loop of stop over a copy of the set.
unfoldable pub disconnect_all : List P2pPeer → P2pNode → P2pNode
disconnect_all [] n = n
disconnect_all (p ∷ ps) n = disconnect_all ps (disconnect_peer p n)

unfoldable pub stop : P2pNode → P2pNode
stop n = disconnect_all n.peers n
