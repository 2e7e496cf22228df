-- ===== src/Messaging.antt =====
-- class Messaging of bcws/messaging.py: requests, responses and timeouts over connections. A
-- connection is known by its address, by which TcpConnection.__eq__ compares, a time is a number of
-- microseconds, and what is handed to conn.send_message is a list, the last message first. `Handler`
-- stands for the response handlers, and `W` for what they and the message handlers change besides.
pub mod Format
pub mod Requests
pub mod Exchange
pub mod Keeping
pub mod Timeouts
use blockchain_workshop.Prelude.{
  ℕ, suc, ◌+◌, ◌*◌, [], ◌∷◌, ◌++◌, List, Bool, true, false, Option, none, some, Result, ok, err,
  Action, value_error, Bytes, Text, leb, nat_eq, ◌==◌, if◌then◌else◌, Bytes_eq, ℕ_eq, pair_Eq,
}
use blockchain_workshop.Prelude.Dict.{Dict, lookup, contains, insert, remove}
use blockchain_workshop.Prelude.Actions.{pure, raise, lift, gets, modify, ◌>>=◌, ◌>>◌}
use blockchain_workshop.Network.Address.{TcpAddress, TcpAddress_eq}
use blockchain_workshop.Messaging.Format
use blockchain_workshop.Messaging.Format.{MessagingMessage}

-- DEFAULT_TIMEOUT in microseconds, and the three message types
abbrev pub default_timeout : ℕ
default_timeout = 10 * 1_000_000

abbrev pub standard : ℕ
standard = 0

abbrev pub standard_with_response : ℕ
standard_with_response = 1

abbrev pub response : ℕ
response = 2

pub record Messaging (Handler : Type 0) : Type 0 where
  pub last_message_id : ℕ
  pub response_handlers : Dict (TcpAddress × ℕ) (ℕ × Handler)
  pub sent : List (TcpAddress × Bytes)

-- response_timeout or DEFAULT_TIMEOUT
unfoldable pub timeout_of : Option ℕ → ℕ
timeout_of none = default_timeout
timeout_of (some t) = if nat_eq t 0 then default_timeout else t

-- register_handler: the table of the message handlers.
unfoldable pub register_handler {ℓ} : {A : Type ℓ} → Text → A → Action (Dict Text A) (Unit {0})
register_handler kind handler d =
    if contains kind d then (err value_error, d) else (ok tt, insert kind handler d)

module _ {Handler : Type 0} where
  -- Messaging(net)
  abbrev pub new : Messaging Handler
  new = record { last_message_id = 0; response_handlers = []; sent = [] }

  unfoldable pub next_message_id : Action (Messaging Handler) ℕ
  next_message_id m =
      (ok (suc m.last_message_id), record m { last_message_id = suc m.last_message_id })

  -- conn.send_message(message.serialize())
  unfoldable pub transmit : TcpAddress → MessagingMessage → Action (Messaging Handler) (Unit {0})
  transmit conn message = do
    data' ← lift (Format.serialize message)
    modify (λ m. record m { sent = (conn, data') ∷ m.sent })

  -- A response handler is stored before the message goes out; back comes the type of the message.
  unfoldable pub store_handler :
      ℕ → TcpAddress → ℕ → Option Handler → Option ℕ → Action (Messaging Handler) ℕ
  store_handler now conn message_id none timeout m = (ok standard, m)
  store_handler now conn message_id (some handler) timeout m = (
    ok standard_with_response,
    record m {
      response_handlers =
          insert (conn, message_id) (now + timeout_of timeout, handler) m.response_handlers;
    },
  )

  unfoldable pub send_message :
      ℕ
      → TcpAddress
      → Text
      → Bytes
      → Option Handler
      → Option ℕ
      → Action (Messaging Handler) (Unit {0})
  send_message now conn kind payload handler timeout = do
    message_id ← next_message_id
    message_type ← store_handler now conn message_id handler timeout
    transmit conn (record {
      message_type = message_type;
      message_id = message_id;
      kind = kind;
      payload = payload;
    })

  -- The handlers of other modules, and the call of a response handler.
  module _ {W : Type 0}
      (handler_of : Text
        → Option (TcpAddress → Bytes → Action (Messaging Handler × W) (Option Bytes)))
      (invoke : Handler
        → TcpAddress
        → Option Bytes
        → Action (Messaging Handler × W) (Unit {0})) where
    -- safe_invoke drops the exception, not what was done before it.
    unfoldable pub safe_invoke :
        Handler → TcpAddress → Option Bytes → Messaging Handler × W → Messaging Handler × W
    safe_invoke handler conn payload s = (invoke handler conn payload s).1

    unfoldable pub handle_response :
        TcpAddress → MessagingMessage → Messaging Handler × W → Messaging Handler × W
    handle_response conn message (m, w) =
        elim (lookup (conn, message.message_id) m.response_handlers) [
          | none ↦ (m, w)
          | some (expire_at, handler) ↦ safe_invoke handler conn (some message.payload) (
            record m { response_handlers = remove (conn, message.message_id) m.response_handlers },
            w,
          )
        ]

    -- The end of _handle_message.
    unfoldable pub respond :
        TcpAddress → MessagingMessage → Option Bytes → Action (Messaging Handler × W) (Unit {0})
    respond conn message none s = (ok tt, s)
    respond conn message (some payload) (m, w) =
        if nat_eq message.message_type standard_with_response
        then (let (r, m') =
              transmit conn
                (record {
                  message_type = response;
                  message_id = message.message_id;
                  kind = [];
                  payload = payload;
                })
                m in
            (r, (m', w)))
        else (ok tt, (m, w))

    unfoldable pub dispatch :
        TcpAddress → MessagingMessage → Action (Messaging Handler × W) (Unit {0})
    dispatch conn message =
        if nat_eq message.message_type response
        then (λ s. (ok tt, handle_response conn message s))
        else elim (handler_of message.kind) [
          | none ↦ pure tt
          | some handler ↦ handler conn message.payload >>= respond conn message
        ]

    unfoldable pub handle_message : TcpAddress → Bytes → Action (Messaging Handler × W) (Unit {0})
    handle_message conn data' = do message ← lift (Format.deserialize data'); dispatch conn message

    -- The loops of _process_timeouts: over a copy of the items, and over what they collected.
    unfoldable pub collect :
        ℕ
        → Dict (TcpAddress × ℕ) (ℕ × Handler)
        → Messaging Handler
        → List (TcpAddress × Handler) × Messaging Handler
    collect now [] m = ([], m)
    collect now ((key, (expire_at, handler)) ∷ d) m =
        if leb expire_at now
        then (let (rest, m') =
              collect now d (record m { response_handlers = remove key m.response_handlers }) in
            ((key.0, handler) ∷ rest, m'))
        else collect now d m

    unfoldable pub invoke_all :
        List (TcpAddress × Handler) → Messaging Handler × W → Messaging Handler × W
    invoke_all [] s = s
    invoke_all ((conn, handler) ∷ rest) s = invoke_all rest (safe_invoke handler conn none s)

    unfoldable pub process_timeouts : ℕ → Messaging Handler × W → Messaging Handler × W
    process_timeouts now (m, w) =
        let (expired, m') = collect now m.response_handlers m in invoke_all expired (m', w)
