-- ===== src/Gossip.antt =====
-- bcws/gossip.py. The clock is an argument: a time is a number of microseconds. What goes out to the
-- peers is a list of broadcasts, the last one first; a handler may change the gossip layer too,
-- and whatever else `W` stands for.
pub mod Once
pub mod Expiry
use blockchain_workshop.Prelude.{
  ℕ, ◌+◌, ◌*◌, [], ◌∷◌, ◌++◌, List, Bool, true, false, Option, none, some, Result, ok, err,
  key_error, Action, Bytes, Text, codes, ltb, take, drop, if◌then◌else◌, Bytes_eq,
}
use blockchain_workshop.Prelude.Dict.{Dict, contains, insert, remove}
use blockchain_workshop.Prelude.Actions.{pure, raise, modify, ◌>>=◌, ◌>>◌}

-- _MESSAGE_ID_LEN, and _EXPIRY_TIME in microseconds
abbrev pub message_id_len : ℕ
message_id_len = 16

abbrev pub expiry_time : ℕ
expiry_time = 300 * 1_000_000

-- A call of P2PNode.broadcast_message.
pub record Relay (Peer : Type 0) : Type 0 where
  pub kind : Text
  pub message : Bytes
  pub except_peer : Option Peer

pub record Gossip (Peer : Type 0) : Type 0 where
  pub seen_messages : Dict Bytes ℕ
  pub relayed : List (Relay Peer)

abbrev pub message_id_of : Bytes → Bytes
message_id_of payload = take message_id_len payload

-- What safe_invoke makes of a result, as the condition of an `if`: an exception is logged.
abbrev pub truthy : Result Bool → Bool
truthy (ok b) = b
truthy (err e) = false

unfoldable pub is_expired : ℕ → ℕ → Bool
is_expired now ts = ltb (ts + expiry_time) now

-- The list comprehension of _cleanup_loop.
unfoldable pub expired_keys : ℕ → Dict Bytes ℕ → List Bytes
expired_keys now [] = []
expired_keys now ((key, ts) ∷ d) =
    let rest = expired_keys now d in if is_expired now ts then key ∷ rest else rest

module _ {Peer : Type 0} where
  -- Gossip(p2p)
  abbrev pub new : Gossip Peer
  new = record { seen_messages = []; relayed = [] }

  unfoldable pub is_seen : Bytes → Gossip Peer → Bool
  is_seen message_id g = contains message_id g.seen_messages

  unfoldable pub mark_and_relay : ℕ → Bytes → Relay Peer → Gossip Peer → Gossip Peer
  mark_and_relay now message_id r g = record {
    seen_messages = insert message_id now g.seen_messages;
    relayed = r ∷ g.relayed;
  }

  -- `message_id` is what os.urandom returns.
  unfoldable pub broadcast : ℕ → Bytes → Text → Bytes → Gossip Peer → Gossip Peer
  broadcast now message_id kind payload g =
      if is_seen message_id g
      then g
      else mark_and_relay now message_id
          (record {
            kind = codes "gossip:" ++ kind;
            message = message_id ++ payload;
            except_peer = none;
          })
          g

  -- A gossip_handler that register_handler makes for a kind.
  module _ {W : Type 0} (kind : Text) (handler : Peer → Bytes → Action (Gossip Peer × W) Bool) where
    unfoldable pub gossip_handler : ℕ → Peer → Bytes → Gossip Peer × W → Gossip Peer × W
    gossip_handler now peer payload (g, w) =
        if is_seen (message_id_of payload) g
        then (g, w)
        else (let (r, s) = handler peer (drop message_id_len payload) (g, w) in
            if truthy r
            then (
              mark_and_relay now (message_id_of payload)
                  (record {
                    kind = codes "gossip:" ++ kind;
                    message = payload;
                    except_peer = some peer;
                  })
                  s.0,
              s.1,
            )
            else s)

  -- del self.seen_messages[key]
  unfoldable pub forget : Bytes → Action (Gossip Peer) (Unit {0})
  forget key g =
      if contains key g.seen_messages
      then (ok tt, record g { seen_messages = remove key g.seen_messages })
      else (err key_error, g)

  unfoldable pub forget_all : List Bytes → Action (Gossip Peer) (Unit {0})
  forget_all [] = pure tt
  forget_all (key ∷ keys) = forget key >> forget_all keys

  unfoldable pub cleanup_loop : ℕ → Action (Gossip Peer) (Unit {0})
  cleanup_loop now g = forget_all (expired_keys now g.seen_messages) g
