-- ===== src/Messaging/Requests.antt =====
-- A response reaches the handler of its request, and no request takes the place of another.
use mathlib.Core.Path.{subst}
use blockchain_workshop.Prelude.{
  ℕ, suc, ◌+◌, ◌≤◌, [], ◌≡◌, refl, sym, ap, ◌∙◌, inl, inr, true, Option, none, some, ok, Action,
  Bytes, Text, arith, ==_refl, ==-cases, Bytes_eq, ℕ_eq, pair_Eq, Result-cases,
}
use blockchain_workshop.Prelude.Dict.{
  Dict, lookup, contains, insert, remove, lookup-insert, lookup-remove, contains-insert,
}
use blockchain_workshop.Network.Address.{TcpAddress, TcpAddress_eq}
use blockchain_workshop.Messaging.Format
use blockchain_workshop.Messaging.Format.{MessagingMessage, deserialize-serialize}
use blockchain_workshop.Messaging.{
  Messaging, response, timeout_of, next_message_id, store_handler, transmit, send_message,
  safe_invoke, handle_response, dispatch, handle_message,
}

abbrev pub reply : ℕ → Bytes → MessagingMessage
reply id payload = record { message_type = response; message_id = id; kind = []; payload = payload }

module _ {Handler : Type 0} where
  -- No pending request has an id that is still to come.
  abbrev pub IsFresh : Messaging Handler → Type 0
  IsFresh m = (k : TcpAddress × ℕ) → contains k m.response_handlers ≡ true → k.1 ≤ m.last_message_id

  -- The object behind send_message's first two steps.
  abbrev stored : ℕ → TcpAddress → Option Handler → Option ℕ → Messaging Handler → Messaging Handler
  stored now conn none timeout m = record m { last_message_id = suc m.last_message_id }
  stored now conn (some h) timeout m = record m {
    last_message_id = suc m.last_message_id;
    response_handlers =
        insert (conn, suc m.last_message_id) (now + timeout_of timeout, h) m.response_handlers;
  }

  stored-IsFresh :
      (now : ℕ) (conn : TcpAddress) (handler : Option Handler) (timeout : Option ℕ)
      (m : Messaging Handler)
      → IsFresh m
      → IsFresh (stored now conn handler timeout m)
  stored-IsFresh now conn none timeout m f k e = omega (arith, f k e)
  stored-IsFresh now conn (some h) timeout m f k e =
      elim (==-cases (conn, suc m.last_message_id) k) [
        | inl (same, _) ↦
            subst (λ (x : TcpAddress × ℕ). x.1 ≤ suc m.last_message_id) same (omega arith)
        | inr (_, other) ↦ omega (
          arith,
          f k (
              ground (
                arith,
                contains-insert (conn, suc m.last_message_id) k (now + timeout_of timeout, h)
                    m.response_handlers,
                other,
                e,
              )),
        )
      ]

  bound :
      (now : ℕ) (conn : TcpAddress) (handler : Option Handler) (timeout : Option ℕ)
      (m : Messaging Handler)
      → IsFresh m
      → (k : TcpAddress × ℕ)
      → contains k (stored now conn handler timeout m).response_handlers ≡ true
      → k.1 ≤ suc m.last_message_id
  bound now conn none timeout m f k e = stored-IsFresh now conn none timeout m f k e
  bound now conn (some h) timeout m f k e = stored-IsFresh now conn (some h) timeout m f k e

  sent_keeps :
      (conn : TcpAddress) (message : MessagingMessage) (m : Messaging Handler)
      → ((transmit conn message m).1.response_handlers ≡ m.response_handlers)
        × ((transmit conn message m).1.last_message_id ≡ m.last_message_id)
  unfolding transmit
  sent_keeps conn message m = elim (Result-cases (Format.serialize message)) [
    | inl (data', e) ↦ rw e (refl, refl)
    | inr (x, e) ↦ rw e (refl, refl)
  ]

  -- send_message leaves what its steps stored, with the message sent or not.
  sends :
      (now : ℕ) (conn : TcpAddress) (kind : Text) (payload : Bytes) (handler : Option Handler)
      (timeout : Option ℕ) (m : Messaging Handler)
      → ((send_message now conn kind payload handler timeout m).1.response_handlers
          ≡ (stored now conn handler timeout m).response_handlers)
        × ((send_message now conn kind payload handler timeout m).1.last_message_id
            ≡ suc m.last_message_id)
  unfolding send_message next_message_id store_handler
  sends now conn kind payload none timeout m = sent_keeps conn _ _
  sends now conn kind payload (some h) timeout m = sent_keeps conn _ _

  -- When no pending request has an id that is still to come, none has behind send_message, whether
  -- the message is sent or the call raises.
  pub send_message-IsFresh :
      (now : ℕ) (conn : TcpAddress) (kind : Text) (payload : Bytes) (handler : Option Handler)
      (timeout : Option ℕ) (m : Messaging Handler)
      → IsFresh m
      → IsFresh (send_message now conn kind payload handler timeout m).1
  send_message-IsFresh now conn kind payload handler timeout m f =
      let (e, i) = sends now conn kind payload handler timeout m in
      λ k h. rw i (bound now conn handler timeout m f k (subst (λ d. contains k d ≡ true) e h))

  added :
      (k : TcpAddress × ℕ) (v : ℕ × Handler) (d : Dict (TcpAddress × ℕ) (ℕ × Handler))
      → lookup k (insert k v d) ≡ some v
  added k v d = rw (lookup-insert k k v d, ==_refl k) refl

  pending_gone :
      (k j : TcpAddress × ℕ) (v : ℕ × Handler) (d : Dict (TcpAddress × ℕ) (ℕ × Handler))
      → lookup k d ≡ none
      → lookup j (remove k (insert k v d)) ≡ lookup j d
  pending_gone k j v d e = elim (==-cases k j) [
    | inl (same, t) ↦
        rw (lookup-remove k j (insert k v d), t) (sym (subst (λ i. lookup i d ≡ none) same e))
    | inr (_, t) ↦ rw (lookup-remove k j (insert k v d), t, lookup-insert k j v d, t) refl
  ]

  absent :
      (k : TcpAddress × ℕ) (m : Messaging Handler)
      → IsFresh m
      → k.1 ≡ suc m.last_message_id
      → lookup k m.response_handlers ≡ none
  unfolding contains
  absent k m f e = ground (arith, f k)

  module _ {W : Type 0}
      (handler_of : Text
        → Option (TcpAddress → Bytes → Action (Messaging Handler × W) (Option Bytes)))
      (invoke : Handler
        → TcpAddress
        → Option Bytes
        → Action (Messaging Handler × W) (Unit {0})) where
    handle_pending :
        (conn : TcpAddress) (message : MessagingMessage) (m : Messaging Handler) (w : W) {t : ℕ}
        {h : Handler}
        → lookup (conn, message.message_id) m.response_handlers ≡ some (t, h)
        → handle_response handler_of invoke conn message (m, w)
          ≡ safe_invoke handler_of invoke h conn (some message.payload) (
            record m { response_handlers = remove (conn, message.message_id) m.response_handlers },
            w,
          )
    unfolding handle_response
    handle_pending conn message m w e = rw (handle_response, e) refl

    handle_reply :
        (conn : TcpAddress) (id : ℕ) (payload data' : Bytes) (s : Messaging Handler × W)
        → Format.serialize (reply id payload) ≡ ok data'
        → handle_message handler_of invoke conn data' s
          ≡ (ok tt, handle_response handler_of invoke conn (reply id payload) s)
    unfolding handle_message dispatch
    handle_reply conn id payload data' s e =
        rw (deserialize-serialize (reply id payload) data' tt e) refl

    -- A request and its response. When no pending request has an id that is still to come, and
    -- behind send_message a response with the id of that request arrives on the same connection: the
    -- handler of the request is called with the payload of the response, on a table of pending
    -- requests that reads as it did before the request.
    pub response_reaches_handler :
        (now : ℕ) (conn : TcpAddress) (kind : Text) (payload answer data' : Bytes) (h : Handler)
        (timeout : Option ℕ) (m : Messaging Handler) (w : W)
        → IsFresh m
        → Format.serialize (reply (suc m.last_message_id) answer) ≡ ok data'
        → (m' : Messaging Handler) × (handle_message handler_of invoke conn data'
              ((send_message now conn kind payload (some h) timeout m).1, w)
            ≡ (ok tt, safe_invoke handler_of invoke h conn (some answer) (m', w)))
          × ((k : TcpAddress × ℕ) → lookup k m'.response_handlers ≡ lookup k m.response_handlers)
    response_reaches_handler now conn kind payload answer data' h timeout m w f e =
        let m1 = (send_message now conn kind payload (some h) timeout m).1 in
        let (table, _) = sends now conn kind payload (some h) timeout m in
        let key : TcpAddress × ℕ = (conn, suc m.last_message_id) in
        let entry : ℕ × Handler = (now + timeout_of timeout, h) in
        let pending : lookup key m1.response_handlers ≡ some entry =
          ap (lookup key) table ∙ added key entry m.response_handlers in
        (
          record m1 { response_handlers = remove key m1.response_handlers },
          handle_reply conn (suc m.last_message_id) answer data' (m1, w) e
              ∙ ap (λ s. (ok tt, s))
                  (handle_pending conn (reply (suc m.last_message_id) answer) m1 w pending),
          λ k.
              ap (λ d. lookup k (remove key d)) table
              ∙ pending_gone key k entry m.response_handlers (absent key m f refl),
        )
