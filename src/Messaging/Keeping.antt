-- ===== src/Messaging/Keeping.antt =====
-- What the methods of class Messaging keep of the state besides the messaging layer.
use blockchain_workshop.Prelude.{
  ℕ, [], ◌∷◌, List, ◌≡◌, inl, inr, Option, none, some, Action, Bytes, Text, Bool-cases,
  Option-cases, nat_eq, pair_Eq, ℕ_eq,
}
use blockchain_workshop.Prelude.Dict.{lookup}
use blockchain_workshop.Prelude.Actions.{lift, keeps_bind}
use blockchain_workshop.Network.Address.{TcpAddress, TcpAddress_eq}
use blockchain_workshop.Messaging.Format
use blockchain_workshop.Messaging.Format.{MessagingMessage}
use blockchain_workshop.Messaging.{
  Messaging, response, standard_with_response, safe_invoke, handle_response, respond, dispatch,
  handle_message, collect, invoke_all, process_timeouts,
}

module _ {ℓ} {Handler W : Type 0} (Q : W → Type ℓ)
    (handler_of : Text
      → Option (TcpAddress → Bytes → Action (Messaging Handler × W) (Option Bytes)))
    (invoke : Handler → TcpAddress → Option Bytes → Action (Messaging Handler × W) (Unit {0}))
    (handlers_keep : (kind : Text)
        (f : TcpAddress → Bytes → Action (Messaging Handler × W) (Option Bytes))
      → handler_of kind ≡ some f
      → (conn : TcpAddress) (payload : Bytes) (s : Messaging Handler × W) → Q s.1
      → Q (f conn payload s).1.1)
    (invoke_keeps : (h : Handler) (conn : TcpAddress) (payload : Option Bytes)
        (s : Messaging Handler × W)
      → Q s.1
      → Q (invoke h conn payload s).1.1) where
  handle_response-keeps :
      (conn : TcpAddress) (message : MessagingMessage) (s : Messaging Handler × W)
      → Q s.1
      → Q (handle_response handler_of invoke conn message s).1
  unfolding handle_response safe_invoke
  handle_response-keeps conn message (m, w) q =
      elim (Option-cases (lookup (conn, message.message_id) m.response_handlers)) [
        | inl e ↦ rw (handle_response, e) q
        | inr ((t, h), e) ↦ rw (handle_response, e) (invoke_keeps h conn (some message.payload) _ q)
      ]

  respond-keeps :
      (conn : TcpAddress) (message : MessagingMessage) (payload : Option Bytes)
      (s : Messaging Handler × W)
      → Q s.1
      → Q (respond handler_of invoke conn message payload s).1.1
  unfolding respond
  respond-keeps conn message none s q = q
  respond-keeps conn message (some payload) (m, w) q =
      elim (Bool-cases (nat_eq message.message_type standard_with_response)) [
        | inl t ↦ rw (respond, t) q
        | inr t ↦ rw (respond, t) q
      ]

  dispatch-keeps :
      (conn : TcpAddress) (message : MessagingMessage) (s : Messaging Handler × W)
      → Q s.1
      → Q (dispatch handler_of invoke conn message s).1.1
  unfolding dispatch
  dispatch-keeps conn message s q = elim (Bool-cases (nat_eq message.message_type response)) [
    | inl t ↦ rw (dispatch, t) (handle_response-keeps conn message s q)
    | inr t ↦ elim (Option-cases (handler_of message.kind)) [
      | inl e ↦ rw (dispatch, t, e) q
      | inr (f, e) ↦
          rw (dispatch, t, e)
            (keeps_bind (λ z. Q z.1) (respond handler_of invoke conn message)
              (f conn message.payload) s (handlers_keep message.kind f e conn message.payload s q)
              (λ payload _.
                respond-keeps conn message payload _
                  (handlers_keep message.kind f e conn message.payload s q)))
    ]
  ]

  -- A message that arrives.
  pub handle_message-keeps :
      (conn : TcpAddress) (data' : Bytes) (s : Messaging Handler × W)
      → Q s.1
      → Q (handle_message handler_of invoke conn data' s).1.1
  unfolding handle_message
  handle_message-keeps conn data' s q =
      keeps_bind (λ z. Q z.1) (dispatch handler_of invoke conn) (lift (Format.deserialize data')) s
        q (λ message _. dispatch-keeps conn message s q)

  invoke_all-keeps :
      (hs : List (TcpAddress × Handler)) (s : Messaging Handler × W)
      → Q s.1
      → Q (invoke_all handler_of invoke hs s).1
  unfolding invoke_all safe_invoke
  invoke_all-keeps [] s q = q
  invoke_all-keeps ((conn, h) ∷ hs) s q =
      invoke_all-keeps hs (invoke h conn none s).1 (invoke_keeps h conn none s q)

  -- The timeouts.
  pub process_timeouts-keeps :
      (now : ℕ) (s : Messaging Handler × W) → Q s.1 → Q (process_timeouts handler_of invoke now s).1
  unfolding process_timeouts
  process_timeouts-keeps now (m, w) q =
      invoke_all-keeps (collect handler_of invoke now m.response_handlers m).0
        ((collect handler_of invoke now m.response_handlers m).1, w) q
