-- ===== src/Search.antt =====
-- bcws/search.py. A time is a number of microseconds, read once for a loop; what the node sends to
-- a peer is a list, the last message first. `SH` and `RH` stand for the search handlers and for the
-- handlers of results, which may change the gossip layer, the search and whatever else `A` stands
-- for. Each handler runs alone, so that the lock of a query is never waited for.
pub mod Answers
use blockchain_workshop.Prelude.{
  ℕ, ◌+◌, ◌*◌, [], ◌∷◌, ◌++◌, List, Bool, true, false, Option, none, some, Result, ok, err,
  value_error, Action, Bytes, Text, codes, ltb, take, drop, if◌then◌else◌, Bytes_eq,
}
use blockchain_workshop.Prelude.Dict.{Dict, lookup, contains, insert, remove}
use blockchain_workshop.Prelude.Actions.{pure, modify, ◌>>=◌, ◌>>◌}
use blockchain_workshop.Messaging
use blockchain_workshop.Gossip
use blockchain_workshop.Gossip.{Gossip, truthy}
use blockchain_workshop.P2p.Peers.{P2pPeer}

-- _SEARCH_TIMEOUT in microseconds, and the length of an id
abbrev pub search_timeout : ℕ
search_timeout = 30 * 1_000_000

abbrev pub search_id_len : ℕ
search_id_len = 16

abbrev pub search_kind : Text → Text
search_kind kind = codes "search:" ++ kind

abbrev pub search_response : Text → Text
search_response kind = codes "search_response:" ++ kind

-- A call of P2PNode.send_message.
pub record Reply : Type 0 where
  pub peer : P2pPeer
  pub kind : Text
  pub payload : Bytes

-- The message handlers that register makes.
pub data Entry (SH : Type 0) : Type 0 where
  on_search : Text → SH → Entry SH
  on_response : Text → Entry SH

pub record Search (SH RH : Type 0) : Type 0 where
  pub search_handlers : Dict Text SH
  pub queries : Dict Bytes (RH × ℕ)
  pub return_paths : Dict Bytes (P2pPeer × ℕ)
  pub replies : List Reply

-- What safe_invoke makes of a result that may be None.
abbrev pub answered : Result (Option Bytes) → Option Bytes
answered (ok o) = o
answered (err e) = none

unfoldable pub is_old : ℕ → ℕ → Bool
is_old now ts = ltb (ts + search_timeout) now

abbrev pub State : Type 0 → Type 0 → Type 0 → Type 0
State SH RH A = Gossip P2pPeer × (Search SH RH × A)

module _ {SH RH : Type 0} where
  -- Search(gossip)
  abbrev pub new : Search SH RH
  new = record { search_handlers = []; queries = []; return_paths = []; replies = [] }

  unfoldable pub add_handler : Text → SH → Action (Search SH RH) (Unit {0})
  add_handler kind handler z =
      if contains kind z.search_handlers
      then (err value_error, z)
      else (ok tt, record z { search_handlers = insert kind handler z.search_handlers })

  -- register, with the table of the messaging layer, in which gossip and P2P register too
  unfoldable pub register : Text → SH → Action (Search SH RH × Dict Text (Entry SH)) (Unit {0})
  register kind handler =
      (λ s. let (r, z) = add_handler kind handler s.0 in (r, (z, s.1)))
      >> (λ s.
          let (r, t) =
            Messaging.register_handler (codes "gossip:" ++ search_kind kind)
              (on_search kind handler) s.1 in
          (r, (s.0, t)))
      >> (λ s.
          let (r, t) = Messaging.register_handler (search_response kind) (on_response kind) s.1 in
          (r, (s.0, t)))

  unfoldable pub pop_query : Bytes → Search SH RH → Search SH RH
  pop_query search_id z = record z { queries = remove search_id z.queries }

  unfoldable pub pop_path : Bytes → Search SH RH → Search SH RH
  pop_path search_id z = record z { return_paths = remove search_id z.return_paths }

  unfoldable pub reply : P2pPeer → Text → Bytes → Search SH RH → Search SH RH
  reply peer kind payload z = record z {
    replies = record { peer = peer; kind = kind; payload = payload } ∷ z.replies;
  }

  -- The second loop of _timeout_loop.
  unfoldable pub drop_paths : ℕ → Dict Bytes (P2pPeer × ℕ) → Search SH RH → Search SH RH
  drop_paths now [] z = z
  drop_paths now ((search_id, (peer, ts)) ∷ d) z =
      drop_paths now d (if is_old now ts then pop_path search_id z else z)

module _ {SH RH A : Type 0} where
  abbrev pub on_search_state : (Search SH RH → Search SH RH) → State SH RH A → State SH RH A
  on_search_state f (g, (z, a)) = (g, (f z, a))

  -- `msg_id` and `gossip_id` are what the two calls of os.urandom return.
  unfoldable pub query : ℕ → Bytes → Bytes → Text → Bytes → RH → State SH RH A → State SH RH A
  query now msg_id gossip_id kind payload result_handler (g, (z, a)) = (
    Gossip.broadcast now gossip_id (search_kind kind) (msg_id ++ payload) g,
    (record z { queries = insert msg_id (result_handler, now) z.queries }, a),
  )

  -- The elif of _response_handler.
  unfoldable pub relay : Text → Bytes → State SH RH A → State SH RH A
  relay kind payload s = elim (lookup (take search_id_len payload) s.1.0.return_paths) [
    | none ↦ s
    | some (peer, ts) ↦
        on_search_state
          (λ z.
            reply peer (search_response kind) (drop search_id_len payload)
              (pop_path (take search_id_len payload) z))
          s
  ]

  -- The end of _gossip_handler, behind safe_invoke.
  unfoldable pub answer_search :
      ℕ
      → Text
      → P2pPeer
      → Bytes
      → Result (Option Bytes) × State SH RH A
      → Result Bool × State SH RH A
  answer_search now kind peer search_id (r, t) = elim (answered r) [
    | some response ↦
        (ok false, on_search_state (reply peer (search_response kind) (search_id ++ response)) t)
    | none ↦ (
      ok true,
      on_search_state (λ z. record z { return_paths = insert search_id (peer, now) z.return_paths })
          t,
    )
  ]

  module _ (search : SH → Bytes → Action (State SH RH A) (Option Bytes))
      (result : RH → Option Bytes → Action (State SH RH A) Bool) where
    -- The _gossip_handler that register makes for a kind.
    unfoldable pub gossip_handler : ℕ → Text → SH → P2pPeer → Bytes → Action (State SH RH A) Bool
    gossip_handler now kind handler peer payload s =
        answer_search now kind peer (take search_id_len payload)
          (search handler (drop search_id_len payload) s)

    -- The _response_handler that register makes for a kind.
    unfoldable pub response_handler : Text → P2pPeer → Bytes → State SH RH A → State SH RH A
    response_handler kind peer payload s =
        elim (lookup (take search_id_len payload) s.1.0.queries) [
          | none ↦ relay kind payload s
          | some (handler, ts) ↦
              let (r, t) = result handler (some (drop search_id_len payload)) s in
              if truthy r then on_search_state (pop_query (take search_id_len payload)) t else t
        ]

    -- The first loop of _timeout_loop, over a copy of the items.
    unfoldable pub drop_queries : ℕ → Dict Bytes (RH × ℕ) → State SH RH A → State SH RH A
    drop_queries now [] s = s
    drop_queries now ((search_id, (handler, ts)) ∷ d) s =
        let rest = drop_queries now d in
        if is_old now ts
        then if contains search_id s.1.0.queries
          then rest (result handler none (on_search_state (pop_query search_id) s)).1
          else rest s
        else rest s

    unfoldable pub timeout_loop : ℕ → State SH RH A → State SH RH A
    timeout_loop now s =
        let t = drop_queries now s.1.0.queries s in
        on_search_state (drop_paths now t.1.0.return_paths) t
