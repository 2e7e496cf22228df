-- ===== src/P2p/Shrinking.antt =====
-- Rounds of _peer_loop of class P2PNode when there are enough peers.
use blockchain_workshop.Prelude.{
  ℕ, suc, ◌+◌, ◌≤◌, ◌<◌, [], ◌∷◌, List, ◌≡◌, refl, sym, ap, ◌∙◌, inl, inr, true, false, some, ok,
  All, All-weaken, length, Bool-cases, if◌then◌else◌, ◌==◌, ◌⊎◌, ==-cases, ==_refl, ltb, nat_eq,
  arith,
}
use native.Mathlib.Decide.{dec_lt}
use blockchain_workshop.Network.Address.{TcpAddress, TcpAddress_eq}
use blockchain_workshop.P2p.PeerList.{Codec}
use blockchain_workshop.P2p.Peers.{
  P2pPeer, NetCall, disconnect, is_in, discard, disconnect_peer, remove_peer, net_call,
}
use blockchain_workshop.P2p.Node.{
  State, Surroundings, node_of, on_node, peer_loop, connect_to_peers, connect_loop,
}
use blockchain_workshop.P2p.Tables.{HasOnce, is_in-discard, discard-HasOnce}

-- `p` is one of the peers, with its connection.
abbrev pub IsAmong : P2pPeer → List P2pPeer → Type 0
IsAmong p [] = ⊥
IsAmong p (q ∷ ps) = (q ≡ p) ⊎ IsAmong p ps

-- random.choice: an element of a sequence that is not empty.
abbrev pub Picks : Surroundings → Type 0
Picks env =
    (p : P2pPeer) (ps : List P2pPeer)
    → (q : P2pPeer) × (env.choice (p ∷ ps) ≡ some q) × IsAmong q (p ∷ ps)

ltb_yes : {a b : ℕ} → a < b → ltb a b ≡ true
ltb_yes h = ground arith

ltb_no : {a b : ℕ} → b ≤ a → ltb a b ≡ false
ltb_no h = ground arith

nat_eq_no : {a b : ℕ} → b < a → nat_eq a b ≡ false
nat_eq_no h = ground arith

picked :
    (env : Surroundings)
    → Picks env
    → (ps : List P2pPeer) → 0 < length ps
    → (q : P2pPeer) × (env.choice ps ≡ some q) × IsAmong q ps
picked env picks [] h = absurd (omega arith)
picked env picks (p ∷ ps) h = picks p ps

is_in_of_IsAmong : (q : P2pPeer) (ps : List P2pPeer) → IsAmong q ps → is_in q.addr ps ≡ true
unfolding is_in
is_in_of_IsAmong q [] h = absurd h
is_in_of_IsAmong q (p ∷ ps) (inl e) = rw (e, ==_refl q.addr) refl
is_in_of_IsAmong q (p ∷ ps) (inr h) = ground (arith, is_in_of_IsAmong q ps h)

IsAmong-discard :
    (a : TcpAddress) (q : P2pPeer) (ps : List P2pPeer) → IsAmong q (discard a ps) → IsAmong q ps
unfolding discard
IsAmong-discard a q [] h = h
IsAmong-discard a q (p ∷ ps) h = elim (Bool-cases (p.addr == a)) [
  | inl t ↦ inr (IsAmong-discard a q ps (rw t at h))
  | inr t ↦
      let h' : IsAmong q (p ∷ discard a ps) = rw t at h in
      elim h' [ inl e ↦ inl e | inr r ↦ inr (IsAmong-discard a q ps r) ]
]

discard_absent : (a : TcpAddress) (ps : List P2pPeer) → is_in a ps ≡ false → discard a ps ≡ ps
unfolding is_in discard
discard_absent a [] h = refl
discard_absent a (p ∷ ps) h = ground (arith, discard_absent a ps)

length-discard :
    (a : TcpAddress) (ps : List P2pPeer)
    → HasOnce ps
    → is_in a ps ≡ true
    → suc (length (discard a ps)) ≡ length ps
unfolding is_in discard
length-discard a [] h here = cc
length-discard a (p ∷ ps) h here = elim (==-cases p.addr a) [
  | inl (same, t) ↦
      let gone : discard a ps ≡ ps = discard_absent a ps (ap (λ b. is_in b ps) (sym same) ∙ h.0) in
      ground (arith, t, ap length gone)
  | inr (_, t) ↦ ground (arith, t, length-discard a ps h.1)
]

-- Each was disconnected, the last one first, on top of the calls there were.
abbrev pub disconnects : List P2pPeer → List NetCall → List NetCall
disconnects [] calls = calls
disconnects (q ∷ gone) calls = disconnects gone (disconnect q.conn ∷ calls)

-- What the rounds do when the peers of `gone` go: as many peers as wanted stay, all of them from
-- before, and the TCP layer is told to disconnect the connection of each peer that goes.
pub record HasShrunk {H A : Type 0} (s t : State H A) (gone : List P2pPeer) : Type 0 where
  pub enough : length (node_of t).peers ≡ (node_of s).max_peers
  pub called : (node_of t).calls ≡ disconnects gone (node_of s).calls
  pub counted : length gone + (node_of s).max_peers ≡ length (node_of s).peers
  pub were_peers : All (λ q. IsAmong q (node_of s).peers) gone
  pub others :
      (a : TcpAddress)
      → is_in a (node_of t).peers ≡ (if is_in a gone then false else is_in a (node_of s).peers)

module _ {H A : Type 0} (codec : Codec) where
  -- Rounds of the InfiniteLoop that calls _peer_loop.
  unfoldable pub peer_rounds : List Surroundings → State H A → State H A
  peer_rounds [] s = s
  peer_rounds (env ∷ envs) s = peer_rounds envs (peer_loop codec env s).1

  loop_full :
      (env : Surroundings) (addrs : List TcpAddress) (s : State H A)
      → (node_of s).max_peers ≤ length (node_of s).peers
      → connect_loop codec env addrs s ≡ (ok tt, s)
  unfolding connect_loop
  loop_full env [] s h = refl
  loop_full env (addr ∷ addrs) s h = ground arith

  -- A round with as many peers as wanted changes nothing.
  quiet_round :
      (env : Surroundings) (s : State H A)
      → (node_of s).min_peers ≤ (node_of s).max_peers
      → length (node_of s).peers ≡ (node_of s).max_peers
      → (peer_loop codec env s).1 ≡ s
  unfolding peer_loop connect_to_peers
  quiet_round env s small full =
      let idle = loop_full env (env.shuffle (node_of s).bootstrap_nodes) s (omega arith) in
      elim (Bool-cases (nat_eq (length (node_of s).peers) 0)) [
        | inl t ↦ rw (peer_loop, t) (ap (λ r. r.1) idle)
        | inr t ↦
            let u : ltb (length (node_of s).peers) (node_of s).min_peers ≡ false =
              ltb_no (omega arith) in
            let v : ltb (node_of s).max_peers (length (node_of s).peers) ≡ false =
              ltb_no (omega arith) in
            rw (peer_loop, t, u, v) refl
      ]

  -- A round with too many gives up one.
  shrinking_round :
      (env : Surroundings) (s : State H A)
      → Picks env
      → (node_of s).min_peers ≤ (node_of s).max_peers
      → (node_of s).max_peers < length (node_of s).peers
      → (q : P2pPeer) × ((peer_loop codec env s).1 ≡ on_node (disconnect_peer q) s)
        × IsAmong q (node_of s).peers
  unfolding peer_loop
  shrinking_round env s picks small many =
      let t : nat_eq (length (node_of s).peers) 0 ≡ false = nat_eq_no (omega arith) in
      let u : ltb (length (node_of s).peers) (node_of s).min_peers ≡ false = ltb_no (omega arith) in
      let v : ltb (node_of s).max_peers (length (node_of s).peers) ≡ true = ltb_yes many in
      let (q, chosen, here) = picked env picks (node_of s).peers (omega arith) in
      (q, rw (peer_loop, t, u, v, chosen) refl, here)

  -- The others go too when one has gone.
  shrunk_more :
      (q : P2pPeer) (gone : List P2pPeer) (s t : State H A)
      → HasOnce (node_of s).peers
      → IsAmong q (node_of s).peers
      → HasShrunk (on_node (disconnect_peer q) s) t gone
      → HasShrunk s t (q ∷ gone)
  unfolding disconnect_peer remove_peer net_call is_in
  shrunk_more q gone s t once here h =
      let less =
        length-discard q.addr (node_of s).peers once (is_in_of_IsAmong q (node_of s).peers here) in
      record {
        enough = h.enough;
        called = h.called;
        counted = omega (arith, h.counted, less);
        were_peers =
            (here, All-weaken (λ p. IsAmong-discard q.addr p (node_of s).peers) gone h.were_peers);
        others = λ a. ground (arith, h.others a, is_in-discard q.addr a (node_of s).peers);
      }

  -- A node whose peers have different addresses has at least max_peers of them, min_peers is at
  -- most max_peers, and random.choice picks an element. Then a round of the loop for each peer
  -- above max_peers leaves exactly max_peers peers, whatever comes of further rounds. The peers that
  -- are gone were peers before, as many as there were too many, and all others stay; the calls of
  -- the TCP layer are a disconnect of the connection of each peer that is gone, in their order, and
  -- no other call.
  pub peer_rounds-HasShrunk :
      (envs : List Surroundings) (s : State H A)
      → All Picks envs
      → HasOnce (node_of s).peers
      → (node_of s).min_peers ≤ (node_of s).max_peers
      → (node_of s).max_peers ≤ length (node_of s).peers
      → length (node_of s).peers ≤ (node_of s).max_peers + length envs
      → (gone : List P2pPeer) × HasShrunk s (peer_rounds envs s) gone
  unfolding peer_rounds disconnect_peer remove_peer net_call is_in
  peer_rounds-HasShrunk [] s _ once small enough few = (
    [],
    record {
      enough = omega arith;
      called = refl;
      counted = omega arith;
      were_peers = tt;
      others = λ a. refl;
    },
  )
  peer_rounds-HasShrunk (env ∷ envs) s picks once small enough few =
      elim (dec_lt (node_of s).max_peers (length (node_of s).peers)) [
        | yes many ↦
            let (q, run, here) = shrinking_round env s picks.0 small many in
            let less =
              length-discard q.addr (node_of s).peers once
                (is_in_of_IsAmong q (node_of s).peers here) in
            let (gone, shrunk) =
              peer_rounds-HasShrunk envs (on_node (disconnect_peer q) s) picks.1
                (discard-HasOnce q.addr (node_of s).peers once) small (omega arith) (omega arith) in
            (q ∷ gone, rw run (shrunk_more q gone s _ once here shrunk))
        | no many ↦
            rw (quiet_round env s small (omega arith))
              (peer_rounds-HasShrunk envs s picks.1 once small enough (omega arith))
      ]
