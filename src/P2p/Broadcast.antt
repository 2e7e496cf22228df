-- ===== src/P2p/Broadcast.antt =====
-- What broadcast_message of class P2PNode hands to the connections.
use blockchain_workshop.Prelude.{
  ℕ, suc, ◌+◌, ◌^◌, ◌<◌, [], ◌∷◌, List, ◌≡◌, refl, ap, ◌∙◌, inl, inr, true, false, Option, none,
  some, Result, ok, Bytes, Text, pair_Eq, ℕ_eq, Lacks, All, All-weaken, length, Bool-cases, ◌==◌,
  ==_refl, if◌then◌else◌, arith,
}
use blockchain_workshop.Prelude.Dict.{insert}
use blockchain_workshop.Prelude.Actions.{>>=-eq-returned}
use blockchain_workshop.Messaging
use blockchain_workshop.Messaging.{
  Messaging, timeout_of, standard, standard_with_response, next_message_id, store_handler, transmit,
}
use blockchain_workshop.Messaging.Format
use blockchain_workshop.Messaging.Format.{MessagingMessage, serialize_short, deserialize-serialize}
use blockchain_workshop.Network.Address.{TcpAddress, TcpAddress_eq}
use blockchain_workshop.P2p.Peers.{P2pPeer, is_in}
use blockchain_workshop.P2p.Node.{
  ResponseHandler, State, node_of, mail, make_response_handler, send_message, send_each,
  broadcast_message,
}

-- What was sent, as the receivers read it.
unfoldable pub opened : List (TcpAddress × Bytes) → List (TcpAddress × Result MessagingMessage)
opened [] = []
opened ((conn, data') ∷ sent) = (conn, Format.deserialize data') ∷ opened sent

unfoldable pub others : List P2pPeer → List P2pPeer → List P2pPeer
others except_peers [] = []
others except_peers (p ∷ ps) =
    let rest = others except_peers ps in if is_in p.addr except_peers then rest else p ∷ rest

abbrev pub type_of {ℓ} : {H : Type ℓ} → Option H → ℕ
type_of none = standard
type_of (some h) = standard_with_response

abbrev pub letter : ℕ → ℕ → Text → Bytes → MessagingMessage
letter type id kind payload = record {
  message_type = type;
  message_id = id;
  kind = kind;
  payload = payload;
}

-- One message for each peer behind those that were sent before, the last one first; they are
-- numbered from the number behind `id`.
unfoldable pub posted :
    ℕ
    → ℕ
    → Text
    → Bytes
    → List P2pPeer
    → List (TcpAddress × Result MessagingMessage)
    → List (TcpAddress × Result MessagingMessage)
posted id type kind payload [] sent = sent
posted id type kind payload (p ∷ ps) sent =
    posted (suc id) type kind payload ps ((p.conn, ok (letter type (suc id) kind payload)) ∷ sent)

module _ {H A : Type 0} where
  -- The state behind one message: the same peers, one more message, and one more id.
  record Posts (now : ℕ) (conn : TcpAddress) (kind : Text) (payload : Bytes)
      (h : Option (ResponseHandler H)) (timeout : Option ℕ) (s : State H A) : Type 0 where
    m : Messaging (ResponseHandler H)
    runs : mail now conn kind payload h timeout s ≡ (ok tt, (m, s.1))
    counts : m.last_message_id ≡ suc s.0.last_message_id
    posts :
        opened m.sent
        ≡ (conn, ok (letter (type_of h) (suc s.0.last_message_id) kind payload)) ∷ opened s.0.sent

  mail-Posts :
      (now : ℕ) (conn : TcpAddress) (kind : Text) (payload : Bytes) (h : Option (ResponseHandler H))
      (timeout : Option ℕ) (s : State H A)
      → Lacks 0 kind
      → suc s.0.last_message_id < 2 ^ 32
      → Posts now conn kind payload h timeout s
  unfolding mail Messaging.send_message next_message_id store_handler transmit opened
  mail-Posts now conn kind payload none timeout (m, w) k short =
      let (data', e) =
        serialize_short (letter standard (suc m.last_message_id) kind payload) (omega arith)
          short in
      record {
        m = record m { last_message_id = suc m.last_message_id; sent = (conn, data') ∷ m.sent };
        runs = rw e refl;
        counts = refl;
        posts =
            rw
              (deserialize-serialize (letter standard (suc m.last_message_id) kind payload) data' k
                e)
              refl;
      }
  mail-Posts now conn kind payload (some h) timeout (m, w) k short =
      let note = letter standard_with_response (suc m.last_message_id) kind payload in
      let (data', e) = serialize_short note (omega arith) short in
      record {
        m = record m {
          last_message_id = suc m.last_message_id;
          response_handlers =
              insert (conn, suc m.last_message_id) (now + timeout_of timeout, h)
                m.response_handlers;
          sent = (conn, data') ∷ m.sent;
        };
        runs = rw e refl;
        counts = refl;
        posts = rw (deserialize-serialize note data' k e) refl;
      }

type-make_response_handler :
    {H : Type 0} (h : Option H) → type_of (make_response_handler h) ≡ type_of h
type-make_response_handler none = refl
type-make_response_handler (some h) = refl

abbrev IsMember : List P2pPeer → P2pPeer → Type 0
IsMember peers p = is_in p.addr peers ≡ true

members_in : (ps : List P2pPeer) → All (IsMember ps) ps
unfolding is_in
members_in [] = tt
members_in (p ∷ ps) = (
  rw (==_refl p.addr) refl,
  All-weaken (λ q h. elim (Bool-cases (p.addr == q.addr)) [ inl t ↦ rw t refl | inr t ↦ rw t h ]) ps
      (members_in ps),
)

module _ {H A : Type 0} (now : ℕ) (kind : Text) (payload : Bytes) (handler : Option H)
    (timeout : Option ℕ) (except_peers : List P2pPeer) (k : Lacks 0 kind) where
  -- What the loop over these peers leaves.
  abbrev Delivers : List P2pPeer → State H A → Type 0
  Delivers ps s =
      (m : Messaging (ResponseHandler H)) × (send_each now kind payload handler timeout except_peers
          ps s
        ≡ (ok tt, (m, s.1)))
      × (opened m.sent
          ≡ posted s.0.last_message_id (type_of handler) kind payload (others except_peers ps)
              (opened s.0.sent))

  first-Delivers :
      (p : P2pPeer) (ps : List P2pPeer) (s : State H A)
      → is_in p.addr except_peers ≡ false
      → IsMember (node_of s).peers p
      → (one : Posts now p.conn kind payload (make_response_handler handler) timeout s)
      → Delivers ps (one.m, s.1)
      → Delivers (p ∷ ps) s
  unfolding send_each send_message others posted
  first-Delivers p ps s t here one (m, run, mail') = (
    m,
    rw t (
        >>=-eq-returned (send_message now p kind payload handler timeout)
          (λ _. send_each now kind payload handler timeout except_peers ps) s
          (rw (send_message, here) one.runs)
        ∙ run),
    rw t (
        mail'
        ∙ ap
            (λ i.
              posted i (type_of handler) kind payload (others except_peers ps) (opened one.m.sent))
            one.counts
        ∙ ap
            (posted (suc s.0.last_message_id) (type_of handler) kind payload
              (others except_peers ps))
            (one.posts
              ∙ ap
                  (λ y.
                    (p.conn, ok (letter y (suc s.0.last_message_id) kind payload))
                    ∷ opened s.0.sent)
                  (type-make_response_handler handler))),
  )

  each-Delivers :
      (ps : List P2pPeer) (s : State H A)
      → All (IsMember (node_of s).peers) ps
      → s.0.last_message_id + length ps < 2 ^ 32
      → Delivers ps s
  unfolding send_each others posted
  each-Delivers [] s _ _ = (s.0, refl, refl)
  each-Delivers (p ∷ ps) s h short = elim (Bool-cases (is_in p.addr except_peers)) [
    | inl t ↦ let (m, run, post) = each-Delivers ps s h.1 (omega arith) in (m, rw t run, rw t post)
    | inr t ↦
        let one =
          mail-Posts now p.conn kind payload (make_response_handler handler) timeout s k
            (omega arith) in
        first-Delivers p ps s t h.0 one
          (each-Delivers ps (one.m, s.1) h.1 (omega (arith, one.counts)))
  ]

  -- A kind without zero bytes, and enough ids of four bytes for all peers: then broadcast_message
  -- returns, and behind the messages that were handed to the connections before stands one message
  -- for each peer that is not excepted, in the order of the set and with ids that count up. Each
  -- of them reads as a message of this kind with this payload, which asks for a response if there
  -- is a response handler. The peers and tables are as they were.
  pub broadcast_message_lem :
      (s : State H A)
      → s.0.last_message_id + length (node_of s).peers < 2 ^ 32
      → (m : Messaging (ResponseHandler H)) × (broadcast_message now kind payload handler timeout
            except_peers s
          ≡ (ok tt, (m, s.1)))
        × (opened m.sent
            ≡ posted s.0.last_message_id
                (type_of handler)
                kind
                payload
                (others except_peers (node_of s).peers)
                (opened s.0.sent))
  unfolding broadcast_message
  broadcast_message_lem s short =
      each-Delivers (node_of s).peers s (members_in (node_of s).peers) short
