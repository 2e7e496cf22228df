-- ===== src/Examples/Search.antt =====
-- Searches at concrete inputs. A search handler is a number that answers a query for itself, and the
-- handler of a result notes what it gets and wants no more.
use blockchain_workshop.Prelude.{
  ℕ, [], ◌∷◌, ◌++◌, List, ◌≡◌, refl, Bool, true, false, Option, none, some, ok, Action, Bytes,
  codes, nat_eq, if◌then◌else◌, Bytes_eq,
}
use blockchain_workshop.Prelude.Int.{pos}
use blockchain_workshop.Prelude.Dict.{lookup, contains}
use blockchain_workshop.Gossip
use blockchain_workshop.P2p.Peers.{P2pPeer}
use blockchain_workshop.Search
use blockchain_workshop.Search.{
  State, on_search_state, search_kind, search_response, relay, query, gossip_handler,
  response_handler, reply,
}
use blockchain_workshop.Search.Answers.{closed, direct_answer, relayed_answer_lost}

abbrev Notes : Type 0
Notes = List (ℕ × Option Bytes)

abbrev seek : ℕ → Bytes → Action (State ℕ ℕ Notes) (Option Bytes)
seek handler [] s = (ok none, s)
seek handler (b ∷ bs) s = if nat_eq handler b then (ok (some (b ∷ b ∷ [])), s) else (ok none, s)

abbrev note : ℕ → Option Bytes → Action (State ℕ ℕ Notes) Bool
note handler found (g, (z, notes)) = (ok true, (g, (z, (handler, found) ∷ notes)))

abbrev idle : State ℕ ℕ Notes
idle = (Gossip.new, (Search.new, []))

abbrev ann : P2pPeer
ann = record { conn = (codes "10.0.0.1", pos 9000); addr = (codes "10.0.0.1", pos 9000) }

abbrev ben : P2pPeer
ben = record { conn = (codes "10.0.0.2", pos 9000); addr = (codes "10.0.0.2", pos 9000) }

abbrev search_id : Bytes
search_id = 0 ∷ 1 ∷ 2 ∷ 3 ∷ 4 ∷ 5 ∷ 6 ∷ 7 ∷ 8 ∷ 9 ∷ 10 ∷ 11 ∷ 12 ∷ 13 ∷ 14 ∷ 15 ∷ []

abbrev gossip_id : Bytes
gossip_id = 1 ∷ 1 ∷ 2 ∷ 3 ∷ 4 ∷ 5 ∷ 6 ∷ 7 ∷ 8 ∷ 9 ∷ 10 ∷ 11 ∷ 12 ∷ 13 ∷ 14 ∷ 15 ∷ []

nothing_seen : Gossip.is_seen gossip_id (Gossip.new {Peer = P2pPeer}) ≡ false
unfolding Gossip.is_seen contains lookup
nothing_seen = refl

direct_answer_example :
    (message : Bytes) × ((query 5 search_id gossip_id (codes "t") (7 ∷ []) 1 idle).0.relayed
      ≡ record {
        kind = codes "gossip:" ++ search_kind (codes "t");
        message = message;
        except_peer = none;
      }
        ∷ [])
    × (Gossip.gossip_handler
          (search_kind (codes "t"))
          (gossip_handler seek note 6 (codes "t") 7)
          6
          ann
          message
          idle
        ≡ on_search_state (reply ann (search_response (codes "t")) (search_id ++ 7 ∷ 7 ∷ [])) idle)
    × (response_handler seek note
          (codes "t")
          ben
          (search_id ++ 7 ∷ 7 ∷ [])
          (query 5 search_id gossip_id (codes "t") (7 ∷ []) 1 idle)
        ≡ closed search_id
            (note 1 (some (7 ∷ 7 ∷ [])) (query 5 search_id gossip_id (codes "t") (7 ∷ []) 1 idle)))
direct_answer_example =
    direct_answer seek note 5 6 search_id gossip_id (codes "t") (7 ∷ []) (7 ∷ 7 ∷ []) 1 7 ann ben
      idle idle idle refl refl nothing_seen nothing_seen refl

abbrev waiting : State ℕ ℕ Notes
waiting = (Gossip.new, (record Search.new { queries = (search_id, (1, 5)) ∷ [] }, []))

abbrev between : State ℕ ℕ Notes
between = (Gossip.new, (record Search.new { return_paths = (search_id, (ann, 5)) ∷ [] }, []))

paths :
    (lookup search_id between.1.0.queries ≡ none)
    × (lookup search_id between.1.0.return_paths ≡ some (ann, 5))
    × (lookup (7 ∷ 7 ∷ []) waiting.1.0.queries ≡ none)
    × (lookup (7 ∷ 7 ∷ []) waiting.1.0.return_paths ≡ none)
unfolding lookup
paths = (refl, refl, refl, refl)

relayed_answer_lost_example :
    ((response_handler seek note (codes "t") ben (search_id ++ 7 ∷ 7 ∷ []) between).1.0.replies
      ≡ record { peer = ann; kind = search_response (codes "t"); payload = 7 ∷ 7 ∷ [] } ∷ [])
    × (response_handler seek note (codes "t") ben (7 ∷ 7 ∷ []) waiting ≡ waiting)
relayed_answer_lost_example =
    let (a, b, c, d) = paths in
    relayed_answer_lost seek note (codes "t") ben ann ben search_id (7 ∷ 7 ∷ []) between waiting 5
      refl a b c d
