-- ===== src/Examples/Disk.antt =====
-- Stores, saved states and messages at concrete inputs.
use blockchain_workshop.Prelude.{
  [], ◌∷◌, ◌≡◌, refl, ok, Bytes, codes, arith, ◌==◌, if◌then◌else◌, Bytes_eq,
}
use blockchain_workshop.Prelude.Int.{pos, ℤ_eq}
use blockchain_workshop.Storage.{Store}
use blockchain_workshop.Disk.{save_to_disk, load_from_disk}
use blockchain_workshop.Disk.RoundTrip.{IsStorable, load-save_state}
use blockchain_workshop.Prelude.Words.{to_bytes4}
use blockchain_workshop.Messaging.Format
use blockchain_workshop.Messaging.Format.{MessagingMessage, deserialize-serialize}
use blockchain_workshop.Examples.ToyJson.{toy_json, toy_json_law}
use blockchain_workshop.Examples.World.{state, executable}

abbrev store : Store
store = (codes "0", 1 ∷ []) ∷ (codes "latest", codes "0") ∷ []

abbrev message : MessagingMessage
message = record { message_type = 1; message_id = 258; kind = codes "echo"; payload = 0 ∷ 7 ∷ [] }

abbrev message_bytes : Bytes
message_bytes = 1 ∷ 0 ∷ 0 ∷ 1 ∷ 2 ∷ 101 ∷ 99 ∷ 104 ∷ 111 ∷ 0 ∷ 0 ∷ 7 ∷ []

message_serialized : Format.serialize message ≡ ok message_bytes
unfolding Format.serialize to_bytes4
message_serialized = refl

deserialize-serialize_example : Format.deserialize message_bytes ≡ ok message
deserialize-serialize_example =
    deserialize-serialize message message_bytes (omega arith) message_serialized

pub state-IsStorable : IsStorable state
unfolding executable
state-IsStorable = record {
  hash_bytes = omega arith;
  balances = ((omega arith, (omega arith, tt)), refl, tt);
  nonces = tt;
}

load-save_state_example :
    load_from_disk toy_json (pos 3) (save_to_disk toy_json state store)
    ≡ (if pos 3 == pos 3 then ok state else load_from_disk toy_json (pos 3) store)
load-save_state_example = load-save_state toy_json state store (pos 3) toy_json_law state-IsStorable
