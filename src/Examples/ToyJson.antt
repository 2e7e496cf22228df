-- ===== src/Examples/ToyJson.antt =====
-- A codec of state dictionaries that meets the law of `Json`: every text and every dictionary is
-- written behind its length.
use blockchain_workshop.Prelude.{
  ℕ, zero, suc, [], ◌∷◌, ◌++◌, ◌≡◌, refl, Result, ok, err, value_error, ◌>>=◌, Bytes, Text, length,
  take, drop, take-append, drop-append,
}
use blockchain_workshop.Prelude.Int.{ℤ, pos, negsuc}
use blockchain_workshop.Prelude.Dict.{Dict}
use blockchain_workshop.Disk.{Json, JsonLaw, StateJson}

write_int : ℤ → Bytes → Bytes
write_int (pos n) rest = 0 ∷ n ∷ rest
write_int (negsuc n) rest = 1 ∷ n ∷ rest

read_int : Bytes → Result (ℤ × Bytes)
read_int (zero ∷ n ∷ rest) = ok (pos n, rest)
read_int (suc k ∷ n ∷ rest) = ok (negsuc n, rest)
read_int _ = err value_error

read_int_lem : (z : ℤ) (rest : Bytes) → read_int (write_int z rest) ≡ ok (z, rest)
unfolding read_int write_int
read_int_lem (pos n) rest = refl
read_int_lem (negsuc n) rest = refl

write_text : Text → Bytes → Bytes
write_text t rest = length t ∷ (t ++ rest)

read_text : Bytes → Result (Text × Bytes)
read_text [] = err value_error
read_text (n ∷ rest) = ok (take n rest, drop n rest)

read_text_lem : (t rest : Bytes) → read_text (write_text t rest) ≡ ok (t, rest)
unfolding read_text write_text
read_text_lem t rest = rw (take-append t rest (length t) refl, drop-append t rest (length t) refl)

write_items : Dict Text ℤ → Bytes → Bytes
write_items [] rest = rest
write_items ((k, v) ∷ d) rest = write_text k (write_int v (write_items d rest))

read_items : ℕ → Bytes → Result (Dict Text ℤ × Bytes)
read_items zero rest = ok ([], rest)
read_items (suc n) rest = do
  (k, r1) ← read_text rest
  (v, r2) ← read_int r1
  (d, r3) ← read_items n r2
  ok ((k, v) ∷ d, r3)

read_items_lem :
    (d : Dict Text ℤ) (rest : Bytes) → read_items (length d) (write_items d rest) ≡ ok (d, rest)
unfolding read_items write_items
read_items_lem [] rest = refl
read_items_lem ((k, v) ∷ d) rest = rw (
  read_text_lem k (write_int v (write_items d rest)),
  read_int_lem v (write_items d rest),
  read_items_lem d rest,
)

pub write_state : StateJson → Bytes
write_state s = write_int s.block_number (
    write_text s.block_hash
      (length s.balances ∷ write_items s.balances (length s.nonces ∷ write_items s.nonces [])))

read_dict : Bytes → Result (Dict Text ℤ × Bytes)
read_dict [] = err value_error
read_dict (n ∷ rest) = read_items n rest

pub read_state : Bytes → Result StateJson
read_state bs = do
  (number, r1) ← read_int bs
  (h, r2) ← read_text r1
  (balances, r3) ← read_dict r2
  (nonces, r4) ← read_dict r3
  ok (record { block_number = number; block_hash = h; balances = balances; nonces = nonces })

abbrev pub toy_json : Json
toy_json = record { dumps = λ s. write_state s; loads = λ b. read_state b }

pub toy_json_law : JsonLaw toy_json
unfolding write_state read_state read_dict
toy_json_law s = rw (
  read_int_lem s.block_number (
      write_text s.block_hash
        (length s.balances ∷ write_items s.balances (length s.nonces ∷ write_items s.nonces []))),
  read_text_lem s.block_hash
      (length s.balances ∷ write_items s.balances (length s.nonces ∷ write_items s.nonces [])),
  read_items_lem s.balances (length s.nonces ∷ write_items s.nonces []),
  read_items_lem s.nonces [],
)

-- What a run of the codec unfolds.
unfoldable pub runs_codec : Unit {0}
unfolding write_int read_int write_text read_text write_items read_items read_dict write_state
    read_state
runs_codec = tt
