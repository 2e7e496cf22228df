-- ===== src/Examples/Production.antt =====
-- The producer of a node that has just been started.
use blockchain_workshop.Prelude.{[], ◌∷◌, ◌≡◌, refl, false, some, ok, err, All}
use blockchain_workshop.Prelude.Int.{pos}
use blockchain_workshop.Storage
use blockchain_workshop.Types.Block
use blockchain_workshop.Types.Block.{Block}
use blockchain_workshop.Mempool
use blockchain_workshop.Mempool.{get_transactions}
use blockchain_workshop.Chain.State.{BlockchainState}
use blockchain_workshop.Chain.Blocks.{apply_block}
use blockchain_workshop.Chain.Building.{IsCheckable}
use blockchain_workshop.Disk.{
  to_json, from_json, save_to_disk, load_from_disk, parse_state, hex_keys, unhex_keys,
}
use blockchain_workshop.Canonical.{
  get_latest_num, get_latest_hash, get_latest_state, update_canonical,
}
use blockchain_workshop.Node.{zeros}
use blockchain_workshop.Node.Genesis.{first_chain}
use blockchain_workshop.Node.Mining.{mine}
use blockchain_workshop.Node.Producer.{Producer, produce_block}
use blockchain_workshop.Node.Mined.{produce_block-taken}
use blockchain_workshop.Examples.World.{toy, executable}
use blockchain_workshop.Examples.ToyJson.{toy_json, runs_codec}
use blockchain_workshop.Examples.Canonical.{no_stores}

abbrev producer : Producer
producer = record {
  canonicaliser = first_chain toy_json no_stores (4 ∷ []) [];
  mempool = Mempool.new;
  broadcasts = [];
  coinbase = zeros 33;
}

abbrev found : Block
found = record {
  number = pos 1;
  nonce = pos 0;
  parent_hash = 4 ∷ [];
  coinbase = zeros 33;
  transactions = [];
  hash = [];
}

abbrev hashed : Block
hashed = elim (Block.calculate_hash found) [ ok b ↦ b | err e ↦ found ]

checkable : All IsCheckable (get_transactions producer.mempool)
unfolding executable
checkable = tt

runs : (produce_block toy_json 3 (λ n. false) producer).0 ≡ ok (some hashed)
unfolding executable runs_codec Storage.load Storage.save to_json from_json save_to_disk
    load_from_disk parse_state hex_keys unhex_keys get_latest_num get_latest_hash get_latest_state
    update_canonical zeros mine produce_block
runs = refl

produce_block-taken_example :
    (s : BlockchainState) × (get_latest_state toy_json
        (update_canonical toy_json 3 producer.canonicaliser).1
      ≡ ok s)
    × ((apply_block hashed s).0 ≡ ok hashed)
produce_block-taken_example =
    produce_block-taken toy_json 3 (λ n. false) producer hashed checkable runs
