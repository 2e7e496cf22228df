-- ===== src/P2p/Tables.antt =====
-- When the set of peers and the two tables of class P2PNode agree.
use blockchain_workshop.Prelude.{
  ℕ, [], ◌∷◌, List, ◌≡◌, refl, inl, inr, Bool, true, false, none, some, ◌==◌, if◌then◌else◌,
  pair_Eq, Bytes_eq, ==-cases, Option-cases, Bool-cases, arith,
}
use blockchain_workshop.Prelude.Int.{ℤ_eq}
use blockchain_workshop.Prelude.Dict.{
  Dict, lookup, contains, insert, remove, lookup-insert, lookup-remove, contains-insert,
  contains-remove,
}
use blockchain_workshop.Network.Address.{TcpAddress, TcpAddress_eq}
use blockchain_workshop.P2p.Peers.{
  P2pPeer, P2pNode, NetCall, disconnect, new, is_in, discard, add, insert_peer, remove_peer,
  net_call, disconnect_peer, on_disconnect,
}

-- An address stands once among the peers.
abbrev pub HasOnce : List P2pPeer → Type 0
HasOnce [] = Unit
HasOnce (p ∷ ps) = (is_in p.addr ps ≡ false) × HasOnce ps

-- Each peer of the tables stands under its own address and its own connection, and the addresses of
-- the one table are those of the set.
pub record IsConsistent (n : P2pNode) : Type 0 where
  pub once : HasOnce n.peers
  pub listed : (a : TcpAddress) → contains a n.peers_addr ≡ is_in a n.peers
  pub under_addr : (a : TcpAddress) (p : P2pPeer) → lookup a n.peers_addr ≡ some p → p.addr ≡ a
  pub under_conn : (c : TcpAddress) (p : P2pPeer) → lookup c n.peers_conn ≡ some p → p.conn ≡ c

pub new-IsConsistent :
    (addr : TcpAddress) (max : ℕ) (bootstrap : List TcpAddress)
    → IsConsistent (new addr max bootstrap)
unfolding contains is_in lookup
new-IsConsistent addr max bootstrap = record {
  once = tt;
  listed = λ a. refl;
  under_addr = λ a p e. cc;
  under_conn = λ c p e. cc;
}

pub is_in-discard :
    (a b : TcpAddress) (ps : List P2pPeer)
    → is_in b (discard a ps) ≡ (if a == b then false else is_in b ps)
unfolding is_in discard
is_in-discard a b [] = ground arith
is_in-discard a b (p ∷ ps) = ground (
  arith,
  TcpAddress_eq.test_iff a b,
  TcpAddress_eq.test_iff p.addr a,
  TcpAddress_eq.test_iff p.addr b,
  is_in-discard a b ps,
)

is_in-add :
    (p : P2pPeer) (b : TcpAddress) (ps : List P2pPeer)
    → is_in b (add p ps) ≡ (if p.addr == b then true else is_in b ps)
unfolding is_in add
is_in-add p b ps = ground (arith, TcpAddress_eq.test_iff p.addr b)

pub discard-HasOnce : (a : TcpAddress) (ps : List P2pPeer) → HasOnce ps → HasOnce (discard a ps)
unfolding discard
discard-HasOnce a [] h = tt
discard-HasOnce a (p ∷ ps) h = elim (==-cases p.addr a) [
  | inl (_, t) ↦ rw t (discard-HasOnce a ps h.1)
  | inr (_, t) ↦ rw t (ground (arith, is_in-discard a p.addr ps, h.0), discard-HasOnce a ps h.1)
]

add-HasOnce : (p : P2pPeer) (ps : List P2pPeer) → HasOnce ps → HasOnce (add p ps)
unfolding add
add-HasOnce p ps h = elim (Bool-cases (is_in p.addr ps)) [ inl t ↦ rw t h | inr t ↦ rw t (t, h) ]

-- Entries that stand under their own key.
module _ (key : P2pPeer → TcpAddress) where
  abbrev IsKeyed : Dict TcpAddress P2pPeer → Type 0
  IsKeyed d = (k : TcpAddress) (p : P2pPeer) → lookup k d ≡ some p → key p ≡ k

  insert-IsKeyed :
      (p : P2pPeer) (d : Dict TcpAddress P2pPeer) → IsKeyed d → IsKeyed (insert (key p) p d)
  insert-IsKeyed p d h k q e = elim (==-cases (key p) k) [
    | inl (same, t) ↦
        let f : some p ≡ some q = ground (arith, lookup-insert (key p) k p d, t, e) in cc (f, same)
    | inr (_, t) ↦ h k q (ground (arith, lookup-insert (key p) k p d, t, e))
  ]

  remove-IsKeyed : (j : TcpAddress) (d : Dict TcpAddress P2pPeer) → IsKeyed d → IsKeyed (remove j d)
  remove-IsKeyed j d h k q e = h k q (ground (arith, lookup-remove j k d, e))

module _ (p : P2pPeer) (n : P2pNode) (h : IsConsistent n) where
  pub insert_peer-IsConsistent : IsConsistent (insert_peer p n)
  unfolding insert_peer
  insert_peer-IsConsistent = record {
    once = add-HasOnce p n.peers h.once;
    listed =
        λ a. rw (contains-insert p.addr a p n.peers_addr, is_in-add p a n.peers, h.listed a) refl;
    under_addr = insert-IsKeyed (λ q. q.addr) p n.peers_addr h.under_addr;
    under_conn = insert-IsKeyed (λ q. q.conn) p n.peers_conn h.under_conn;
  }

  remove_peer-IsConsistent : IsConsistent (remove_peer p n)
  unfolding remove_peer
  remove_peer-IsConsistent = record {
    once = discard-HasOnce p.addr n.peers h.once;
    listed = λ a.
        rw (contains-remove p.addr a n.peers_addr, is_in-discard p.addr a n.peers, h.listed a) refl;
    under_addr = remove-IsKeyed (λ q. q.addr) p.addr n.peers_addr h.under_addr;
    under_conn = remove-IsKeyed (λ q. q.conn) p.conn n.peers_conn h.under_conn;
  }

pub net_call-IsConsistent :
    (c : NetCall) (n : P2pNode) → IsConsistent n → IsConsistent (net_call c n)
unfolding net_call
net_call-IsConsistent c n h = record {
  once = h.once;
  listed = h.listed;
  under_addr = h.under_addr;
  under_conn = h.under_conn;
}

pub disconnect_peer-IsConsistent :
    (p : P2pPeer) (n : P2pNode) → IsConsistent n → IsConsistent (disconnect_peer p n)
unfolding disconnect_peer
disconnect_peer-IsConsistent p n h =
    net_call-IsConsistent (disconnect p.conn) (remove_peer p n) (remove_peer-IsConsistent p n h)

pub on_disconnect-IsConsistent :
    (conn : TcpAddress) (initiated : Bool) (n : P2pNode)
    → IsConsistent n
    → IsConsistent (on_disconnect conn initiated n)
unfolding on_disconnect
on_disconnect-IsConsistent conn true n h = h
on_disconnect-IsConsistent conn false n h = elim (Option-cases (lookup conn n.peers_conn)) [
  | inl e ↦ rw (on_disconnect, e) h
  | inr (p, e) ↦ rw (on_disconnect, e) (remove_peer-IsConsistent p n h)
]

-- The peers that the tables read.
pub in_tables :
    (n : P2pNode) (a : TcpAddress)
    → IsConsistent n
    → is_in a n.peers ≡ false
    → lookup a n.peers_addr ≡ none
unfolding contains
in_tables n a h e = ground (arith, h.listed a, e)
