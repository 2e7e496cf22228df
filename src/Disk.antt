-- ===== src/Disk.antt =====
-- class BlockchainState of bcws/blockchain.py, on disk: to_json, from_json, save_to_disk and
-- load_from_disk. What json.dumps and json.loads do with the dictionary of a state is the
-- parameter `Json`.
pub mod RoundTrip
use blockchain_workshop.Prelude.{
  [], ◌∷◌, List, ◌≡◌, Option, none, some, Result, ok, err, value_error, assertion_error, ◌>>=◌,
  Bytes, Text, ◌==◌, if◌then◌else◌, Bytes_eq,
}
use blockchain_workshop.Prelude.Int.{ℤ, ℤ_eq}
use blockchain_workshop.Prelude.Dict.{Dict, insert}
use blockchain_workshop.Text.Hex.{hex, fromhex}
use blockchain_workshop.Text.Decimal.{str}
use blockchain_workshop.Storage
use blockchain_workshop.Storage.{Store}
use blockchain_workshop.Chain.State
use blockchain_workshop.Chain.State.{BlockchainState}

-- The dictionary that to_json returns.
pub record StateJson : Type 0 where
  pub block_number : ℤ
  pub block_hash : Text
  pub balances : Dict Text ℤ
  pub nonces : Dict Text ℤ

-- json.dumps(data).encode(), and json.loads with the lookups of from_json.
pub record Json : Type 0 where
  pub dumps : StateJson → Bytes
  pub loads : Bytes → Result StateJson

-- json.loads reads what json.dumps wrote.
abbrev pub JsonLaw : Json → Type 0
JsonLaw j = (v : StateJson) → j.loads (j.dumps v) ≡ ok v

-- The other comprehension: different keys have different hex texts.
unfoldable pub hex_keys : Dict Bytes ℤ → Dict Text ℤ
hex_keys [] = []
hex_keys ((k, v) ∷ d) = (hex k, v) ∷ hex_keys d

-- The dict comprehension of from_json: each entry is written into the dict of those before it.
unfoldable pub unhex_keys : Dict Text ℤ → Dict Bytes ℤ → Result (Dict Bytes ℤ)
unhex_keys [] acc = ok acc
unhex_keys ((k, v) ∷ d) acc = do b ← fromhex k; unhex_keys d (insert b v acc)

unfoldable pub to_json : BlockchainState → StateJson
to_json s = record {
  block_number = s.block_number;
  block_hash = hex s.block_hash;
  balances = hex_keys s.balances;
  nonces = hex_keys s.nonces;
}

unfoldable pub from_json : StateJson → Result BlockchainState
from_json j = do
  h ← fromhex j.block_hash
  bs ← unhex_keys j.balances []
  ns ← unhex_keys j.nonces []
  ok (record { block_number = j.block_number; block_hash = h; balances = bs; nonces = ns })

module _ (json : Json) where
  unfoldable pub save_to_disk : BlockchainState → Store → Store
  save_to_disk s st = Storage.save (str s.block_number) (json.dumps (to_json s)) st

  unfoldable pub parse_state : ℤ → Bytes → Result BlockchainState
  parse_state number data' = do
    j ← json.loads data'
    s ← from_json j
    if s.block_number == number then ok s else err assertion_error

  unfoldable pub load_from_disk : ℤ → Store → Result BlockchainState
  load_from_disk number st = elim (Storage.load (str number) st) [
    | none ↦ err value_error
    | some data' ↦ parse_state number data'
  ]
