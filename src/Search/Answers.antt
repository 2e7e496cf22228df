-- ===== src/Search/Answers.antt =====
-- What becomes of the answers to a query.
use blockchain_workshop.Prelude.{
  ℕ, ◌∷◌, ◌++◌, ◌≡◌, refl, ap, ◌∙◌, Bool, true, false, Option, none, some, Result, ok, Action,
  Bytes, Text, codes, length, take, drop, take-append, drop-append, ==_refl, if◌then◌else◌,
  Bytes_eq,
}
use blockchain_workshop.Prelude.Dict.{Dict, lookup, insert, remove, lookup-insert, lookup-remove}
use blockchain_workshop.Gossip
use blockchain_workshop.Gossip.{Gossip, truthy}
use blockchain_workshop.P2p.Peers.{P2pPeer}
use blockchain_workshop.Search.{
  State, on_search_state, search_id_len, search_kind, search_response, relay, query, gossip_handler,
  response_handler, pop_query, pop_path, reply, answer_search,
}

-- What the handler of a result leaves: an answered query is closed.
abbrev pub closed : {SH RH A : Type 0} → Bytes → Result Bool × State SH RH A → State SH RH A
closed search_id (r, t) = if truthy r then on_search_state (pop_query search_id) t else t

module _ {SH RH A : Type 0} (search : SH → Bytes → Action (State SH RH A) (Option Bytes))
    (result : RH → Option Bytes → Action (State SH RH A) Bool) where
  response_pending :
      (kind : Text) (peer : P2pPeer) (payload : Bytes) (s : State SH RH A) {h : RH} {ts : ℕ}
      → lookup (take search_id_len payload) s.1.0.queries ≡ some (h, ts)
      → response_handler search result kind peer payload s
        ≡ closed (take search_id_len payload) (result h (some (drop search_id_len payload)) s)
  unfolding response_handler
  response_pending kind peer payload s e = rw (response_handler, e) refl

  response_unknown :
      (kind : Text) (peer : P2pPeer) (payload : Bytes) (s : State SH RH A)
      → lookup (take search_id_len payload) s.1.0.queries ≡ none
      → response_handler search result kind peer payload s ≡ relay kind payload s
  unfolding response_handler
  response_unknown kind peer payload s e = rw (response_handler, e) refl

  added : (k : Bytes) (v : RH × ℕ) (d : Dict Bytes (RH × ℕ)) → lookup k (insert k v d) ≡ some v
  added k v d = rw (lookup-insert k k v d, ==_refl k) refl

  removed : (k : Bytes) (d : Dict Bytes (RH × ℕ)) → lookup k (remove k d) ≡ none
  removed k d = rw (lookup-remove k k d, ==_refl k) refl

  -- A node that asked: its query is pending, and its message goes to all peers.
  asked :
      (now : ℕ) (msg_id gossip_id : Bytes) (kind : Text) (payload : Bytes) (h : RH)
      (s : State SH RH A)
      → Gossip.is_seen gossip_id s.0 ≡ false
      → ((query now msg_id gossip_id kind payload h s).0.relayed
          ≡ record {
            kind = codes "gossip:" ++ search_kind kind;
            message = gossip_id ++ (msg_id ++ payload);
            except_peer = none;
          }
            ∷ s.0.relayed)
        × (lookup msg_id (query now msg_id gossip_id kind payload h s).1.0.queries ≡ some (h, now))
  unfolding query Gossip.broadcast Gossip.mark_and_relay
  asked now msg_id gossip_id kind payload h s fresh =
      (rw (Gossip.broadcast, fresh) refl, added msg_id (h, now) s.1.0.queries)

  handler_answers :
      (now : ℕ) (kind : Text) (handler : SH) (peer : P2pPeer) (msg_id payload response : Bytes)
      (b t : State SH RH A)
      → length msg_id ≡ 16
      → search handler payload b ≡ (ok (some response), t)
      → gossip_handler search result now kind handler peer (msg_id ++ payload) b
        ≡ (ok false, on_search_state (reply peer (search_response kind) (msg_id ++ response)) t)
  unfolding gossip_handler answer_search
  handler_answers now kind handler peer msg_id payload response b t l e =
      let whole = msg_id ++ payload in
      ap (λ x. answer_search now kind peer (take search_id_len whole) (search handler x b))
        (drop-append msg_id payload 16 l)
      ∙ ap (answer_search now kind peer (take search_id_len whole)) e
      ∙ ap (λ i. answer_search now kind peer i (ok (some response), t))
          (take-append msg_id payload 16 l)

  -- A node that knows the answer sends it back and lets the query go no further.
  answers :
      (now : ℕ) (kind : Text) (handler : SH) (peer : P2pPeer)
      (msg_id gossip_id payload response : Bytes) (b t : State SH RH A)
      → length gossip_id ≡ 16
      → length msg_id ≡ 16
      → Gossip.is_seen gossip_id b.0 ≡ false
      → search handler payload b ≡ (ok (some response), t)
      → Gossip.gossip_handler
          (search_kind kind)
          (gossip_handler search result now kind handler)
          now
          peer
          (gossip_id ++ (msg_id ++ payload))
          b
        ≡ on_search_state (reply peer (search_response kind) (msg_id ++ response)) t
  unfolding Gossip.gossip_handler gossip_handler
  answers now kind handler peer msg_id gossip_id payload response b t lg lm fresh e =
      let whole = msg_id ++ payload in
      rw
        (
          Gossip.gossip_handler,
          take-append gossip_id whole 16 lg,
          fresh,
          drop-append gossip_id whole 16 lg,
          handler_answers now kind handler peer msg_id payload response b t lm e,
        )
        refl

  -- A query and its direct answer. A node asks, with ids of 16 bytes of which the one for the gossip
  -- layer is new to both nodes, and the message that it hands to all its peers reaches a node whose
  -- search handler answers. That node sends one message back to the peer from which it has the
  -- query and does not pass the query on; and when this message reaches the node that asked, the
  -- handler of the query is called with the answer, and the query is closed if it returns True.
  pub direct_answer :
      (now later : ℕ) (msg_id gossip_id : Bytes) (kind : Text) (payload response : Bytes) (h : RH)
      (handler : SH) (asker answerer : P2pPeer) (s b t : State SH RH A)
      → length gossip_id ≡ 16
      → length msg_id ≡ 16
      → Gossip.is_seen gossip_id s.0 ≡ false
      → Gossip.is_seen gossip_id b.0 ≡ false
      → search handler payload b ≡ (ok (some response), t)
      → (message : Bytes) × ((query now msg_id gossip_id kind payload h s).0.relayed
          ≡ record {
            kind = codes "gossip:" ++ search_kind kind;
            message = message;
            except_peer = none;
          }
            ∷ s.0.relayed)
        × (Gossip.gossip_handler
              (search_kind kind)
              (gossip_handler search result later kind handler)
              later
              asker
              message
              b
            ≡ on_search_state (reply asker (search_response kind) (msg_id ++ response)) t)
        × (response_handler search result kind answerer
              (msg_id ++ response)
              (query now msg_id gossip_id kind payload h s)
            ≡ closed msg_id
                (result h (some response) (query now msg_id gossip_id kind payload h s)))
  direct_answer now later msg_id gossip_id kind payload response h handler asker answerer s b t lg
        lm new unseen e =
      let (sent, pending) = asked now msg_id gossip_id kind payload h s new in
      let s1 = query now msg_id gossip_id kind payload h s in
      let i = take-append msg_id response 16 lm in
      (
        gossip_id ++ (msg_id ++ payload),
        sent,
        answers later kind handler asker msg_id gossip_id payload response b t lg lm unseen e,
        response_pending kind answerer (msg_id ++ response) s1
              (ap (λ x. lookup x s1.1.0.queries) i ∙ pending)
            ∙ ap (λ x. closed x (result h (some (drop search_id_len (msg_id ++ response))) s1)) i
            ∙ ap (λ x. closed msg_id (result h (some x) s1)) (drop-append msg_id response 16 lm),
      )

  -- When the handler of a query has returned True on an answer, another message with the id of the
  -- query does not reach it: it is treated like an answer to a query of somebody else.
  pub answered_once :
      (kind : Text) (peer other : P2pPeer) (payload again : Bytes) (s t : State SH RH A) (h : RH)
      (ts : ℕ)
      → lookup (take search_id_len payload) s.1.0.queries ≡ some (h, ts)
      → result h (some (drop search_id_len payload)) s ≡ (ok true, t)
      → take search_id_len again ≡ take search_id_len payload
      → response_handler search result kind other again
          (response_handler search result kind peer payload s)
        ≡ relay kind again (response_handler search result kind peer payload s)
  unfolding pop_query
  answered_once kind peer other payload again s t h ts pending accepts same =
      let run : response_handler search result kind peer payload s
          ≡ on_search_state (pop_query (take search_id_len payload)) t =
        response_pending kind peer payload s pending
        ∙ ap (closed (take search_id_len payload)) accepts in
      response_unknown kind other again _ (
        ap (λ x. lookup (take search_id_len again) x.1.0.queries) run
        ∙ ap (λ x. lookup x (remove (take search_id_len payload) t.1.0.queries)) same
        ∙ removed (take search_id_len payload) t.1.0.queries)

  -- An answer that passes a node between is lost. That node has no query with the id and knows the
  -- peer to which the answer has to go; what it sends there is the answer without the id. When the
  -- first 16 bytes of the answer are no id that the receiver knows, the message changes nothing
  -- there, so that its query goes on waiting.
  pub relayed_answer_lost :
      (kind : Text) (from peer between : P2pPeer) (search_id response : Bytes) (b s : State SH RH A)
      (ts : ℕ)
      → length search_id ≡ 16
      → lookup search_id b.1.0.queries ≡ none
      → lookup search_id b.1.0.return_paths ≡ some (peer, ts)
      → lookup (take search_id_len response) s.1.0.queries ≡ none
      → lookup (take search_id_len response) s.1.0.return_paths ≡ none
      → ((response_handler search result kind from (search_id ++ response) b).1.0.replies
          ≡ record { peer = peer; kind = search_response kind; payload = response } ∷ b.1.0.replies)
        × (response_handler search result kind between response s ≡ s)
  unfolding relay reply pop_path
  relayed_answer_lost kind from peer between search_id response b s ts l unasked path unknown
        no_path =
      let i = take-append search_id response 16 l in
      (
        ap (λ z. z.1.0.replies)
              (response_unknown kind from (search_id ++ response) b
                (ap (λ x. lookup x b.1.0.queries) i ∙ unasked))
            ∙ rw (relay, i, path, drop-append search_id response 16 l) refl,
        response_unknown kind between response s unknown ∙ rw (relay, no_path) refl,
      )
