-- ===== src/Messaging/Exchange.antt =====
-- A request over the wire: the bytes that go out, the answer that the other side makes of them, and
-- the call of the handler when the answer comes back.
use blockchain_workshop.Prelude.{
  ℕ, suc, ◌<◌, ◌^◌, ◌∷◌, ◌≡◌, refl, ap, ◌∙◌, Option, some, ok, Action, Bytes, Text, Lacks, arith,
  Bytes_eq, ℕ_eq, pair_Eq,
}
use blockchain_workshop.Prelude.Dict.{lookup}
use blockchain_workshop.Prelude.Actions.{>>=-eq-returned}
use blockchain_workshop.Network.Address.{TcpAddress, TcpAddress_eq}
use blockchain_workshop.Messaging.Format
use blockchain_workshop.Messaging.Format.{MessagingMessage, serialize_short, deserialize-serialize}
use blockchain_workshop.Messaging.{
  Messaging, standard_with_response, next_message_id, store_handler, transmit, send_message,
  safe_invoke, respond, dispatch, handle_message,
}
use blockchain_workshop.Messaging.Requests.{IsFresh, reply, response_reaches_handler}

-- The message of a request.
abbrev pub request : ℕ → Text → Bytes → MessagingMessage
request id kind payload = record {
  message_type = standard_with_response;
  message_id = id;
  kind = kind;
  payload = payload;
}

transmit_lem :
    {Handler : Type 0} (conn : TcpAddress) (message : MessagingMessage) (data' : Bytes)
    (m : Messaging Handler)
    → Format.serialize message ≡ ok data'
    → transmit conn message m ≡ (ok tt, record m { sent = (conn, data') ∷ m.sent })
unfolding transmit
transmit_lem conn message data' m e = rw e refl

-- What send_message puts on the wire.
send_request :
    {Handler : Type 0} (now : ℕ) (conn : TcpAddress) (kind : Text) (payload data' : Bytes)
    (h : Handler) (timeout : Option ℕ) (m : Messaging Handler)
    → Format.serialize (request (suc m.last_message_id) kind payload) ≡ ok data'
    → ((send_message now conn kind payload (some h) timeout m).0 ≡ ok tt)
      × ((send_message now conn kind payload (some h) timeout m).1.sent ≡ (conn, data') ∷ m.sent)
unfolding send_message next_message_id store_handler
send_request now conn kind payload data' h timeout m e =
    let run = transmit_lem conn (request (suc m.last_message_id) kind payload) data' _ e in
    (ap (λ r. r.0) run, ap (λ r. r.1.sent) run)

-- The other side: what it makes of a request whose handler gives an answer.
module _ {Handler W : Type 0}
    (handler_of : Text
      → Option (TcpAddress → Bytes → Action (Messaging Handler × W) (Option Bytes)))
    (invoke : Handler → TcpAddress → Option Bytes → Action (Messaging Handler × W) (Unit {0})) where
  answer_request :
      (conn : TcpAddress) (id : ℕ) (kind : Text) (payload answer data' answer_data : Bytes)
      (f : TcpAddress → Bytes → Action (Messaging Handler × W) (Option Bytes))
      (s t : Messaging Handler × W)
      → Lacks 0 kind
      → Format.serialize (request id kind payload) ≡ ok data'
      → Format.serialize (reply id answer) ≡ ok answer_data
      → handler_of kind ≡ some f
      → f conn payload s ≡ (ok (some answer), t)
      → handle_message handler_of invoke conn data' s
        ≡ (ok tt, (record t.0 { sent = (conn, answer_data) ∷ t.0.sent }, t.1))
  unfolding handle_message dispatch respond
  answer_request conn id kind payload answer data' answer_data f s t lacks e e' known run =
      rw (deserialize-serialize (request id kind payload) data' lacks e) (
        rw (dispatch, known)
          (>>=-eq-returned (f conn payload)
              (respond handler_of invoke conn (request id kind payload)) s run
            ∙ rw (transmit_lem conn (reply id answer) answer_data t.0 e') refl))

-- A request from one node to another, which know their connection as `conn` and `back`. No pending
-- request of the sender has an id that is still to come, the next id fits in four bytes, the kind
-- holds no zero, and the handler of the other node for the kind answers the payload. Then
-- send_message succeeds and writes one message; the other node's _handle_message makes of these bytes
-- one message back; and the sender's _handle_message makes of that one call of the handler of the
-- request, with the answer and on a table of pending requests that reads as before the request.
pub request_is_answered :
    {Handler W Handler' W' : Type 0}
    (handler_of : Text
      → Option (TcpAddress → Bytes → Action (Messaging Handler × W) (Option Bytes)))
    (invoke : Handler → TcpAddress → Option Bytes → Action (Messaging Handler × W) (Unit {0}))
    (handler_of' : Text
      → Option (TcpAddress → Bytes → Action (Messaging Handler' × W') (Option Bytes)))
    (invoke' : Handler' → TcpAddress → Option Bytes → Action (Messaging Handler' × W') (Unit {0}))
    (now : ℕ) (conn back : TcpAddress) (kind : Text) (payload answer : Bytes) (h : Handler)
    (timeout : Option ℕ) (m : Messaging Handler) (w : W)
    (f : TcpAddress → Bytes → Action (Messaging Handler' × W') (Option Bytes))
    (s t : Messaging Handler' × W')
    → IsFresh m
    → suc m.last_message_id < 2 ^ 32
    → Lacks 0 kind
    → handler_of' kind ≡ some f
    → f back payload s ≡ (ok (some answer), t)
    → let (r, m1) = send_message now conn kind payload (some h) timeout m in
      (sent : Bytes) × (received : Bytes) × (m' : Messaging Handler) × (r ≡ ok tt)
      × (m1.sent ≡ (conn, sent) ∷ m.sent)
      × (handle_message handler_of' invoke' back sent s
          ≡ (ok tt, (record t.0 { sent = (back, received) ∷ t.0.sent }, t.1)))
      × (handle_message handler_of invoke conn received (m1, w)
          ≡ (ok tt, (invoke h conn (some answer) (m', w)).1))
      × ((k : TcpAddress × ℕ) → lookup k m'.response_handlers ≡ lookup k m.response_handlers)
unfolding safe_invoke
request_is_answered handler_of invoke handler_of' invoke' now conn back kind payload answer h
      timeout m w f s t fresh small lacks known run =
    let id = suc m.last_message_id in
    let (sent, e) = serialize_short (request id kind payload) (omega arith) small in
    let (received, e') = serialize_short (reply id answer) (omega arith) small in
    let (r, out) = send_request now conn kind payload sent h timeout m e in
    let (m', called, kept) =
      response_reaches_handler handler_of invoke now conn kind payload answer received h timeout m w
        fresh e' in
    (
      sent,
      received,
      m',
      r,
      out,
      answer_request handler_of' invoke' back id kind payload answer sent received f s t lacks e e'
          known run,
      called,
      kept,
    )
