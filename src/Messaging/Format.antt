-- ===== src/Messaging/Format.antt =====
-- class MessagingMessage: the bytes of a message. A kind is ASCII text.
use blockchain_workshop.Prelude.{
  ℕ, [], ◌∷◌, ◌++◌, ◌≡◌, refl, ◌<◌, ◌^◌, inl, inr, Result-cases, Result, ok, err, index_error,
  value_error, ◌>>=◌, Bytes, Text, Lacks, take, drop, ltb, if◌then◌else◌, nat_eq, arith,
}
use blockchain_workshop.Prelude.Words.{to_bytes4, from_bytes}

pub record MessagingMessage : Type 0 where
  pub message_type : ℕ
  pub message_id : ℕ
  pub kind : Text
  pub payload : Bytes

-- bytearray.append raises ValueError unless the number is a byte.
unfoldable pub serialize : MessagingMessage → Result Bytes
serialize m = do
  head ← if ltb m.message_type 256 then ok (m.message_type ∷ []) else err value_error
  id ← to_bytes4 m.message_id
  ok (head ++ (id ++ (m.kind ++ (0 ∷ m.payload))))

-- data[5:i] and data[i + 1:] for i = data.index(0, 5), from what stands behind the first five
-- bytes; a missing zero raises ValueError.
unfoldable pub split_zero : Bytes → Result (Bytes × Bytes)
split_zero [] = err value_error
split_zero (b ∷ bs) =
    let rest = split_zero bs in
    if nat_eq b 0 then ok ([], bs) else (do (kind, payload) ← rest; ok (b ∷ kind, payload))

unfoldable pub first : Bytes → Result ℕ
first [] = err index_error
first (b ∷ bs) = ok b

unfoldable pub deserialize : Bytes → Result MessagingMessage
deserialize data' = do
  message_type ← first data'
  (kind, payload) ← split_zero (drop 5 data')
  ok (record {
    message_type = message_type;
    message_id = from_bytes 0 (take 4 (drop 1 data'));
    kind = kind;
    payload = payload;
  })

-- A type of one byte and an id of four bytes can be written.
pub serialize_short :
    (m : MessagingMessage)
    → m.message_type < 256
    → m.message_id < 2 ^ 32
    → (data' : Bytes) × (serialize m ≡ ok data')
unfolding serialize to_bytes4
serialize_short m t i = elim (Result-cases (serialize m)) [
  | inl h ↦ h
  | inr (x, e) ↦ absurd (ground arith)
]

split_zero_lem :
    (kind payload : Bytes) → Lacks 0 kind → split_zero (kind ++ 0 ∷ payload) ≡ ok (kind, payload)
unfolding split_zero
split_zero_lem [] payload h = refl
split_zero_lem (b ∷ kind) payload h = ground (arith, split_zero_lem kind payload h.1)

-- A message that serialize turns into bytes, whose kind holds no zero, is read back from those
-- bytes.
pub deserialize-serialize :
    (m : MessagingMessage) (data' : Bytes)
    → Lacks 0 m.kind
    → serialize m ≡ ok data'
    → deserialize data' ≡ ok m
unfolding deserialize serialize first to_bytes4 from_bytes
deserialize-serialize m data' h e = ground (arith, split_zero_lem m.kind m.payload h)
