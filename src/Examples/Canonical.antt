-- ===== src/Examples/Canonical.antt =====
-- The canonicaliser at a concrete input: the tip is a child of the block that is stored as the
-- latest one.
use blockchain_workshop.Prelude.{[], ◌∷◌, ◌≡◌, refl, ok, Bytes, codes, Bytes_eq}
use blockchain_workshop.Prelude.Int.{pos}
use blockchain_workshop.Types.Block.{Block}
use blockchain_workshop.Fork.{handle_new_block}
use blockchain_workshop.Canonical.{
  ChainCanonicaliser, get_latest_num, get_latest_hash, get_latest_block, get_block_by_hash,
  get_block_by_number, descend, meet, plan, update_canonical,
}
use blockchain_workshop.Node
use blockchain_workshop.Node.{Stores, get_balance}
use blockchain_workshop.Node.Genesis.{new-genesis}
use blockchain_workshop.Storage
use blockchain_workshop.Prelude.Dict.{lookup, contains}
use blockchain_workshop.Types.Parsed.{IsProper}
use blockchain_workshop.Canonical.Latest.{IsConsistent, update_canonical-IsConsistent}
use blockchain_workshop.Canonical.Plan.{Branch, plan-Branch}
use blockchain_workshop.Examples.World.{toy, toy_laws}
use blockchain_workshop.Examples.ToyJson.{toy_json, toy_json_law}
use blockchain_workshop.Examples.Fork.{first, child, started, written, runs}

abbrev chain : ChainCanonicaliser
chain = record {
  fork_manager = (handle_new_block 5 (written child) started).1;
  blocknum_storage = (codes "0", first.hash) ∷ (codes "latest", codes "0") ∷ [];
  blockstate_storage = [];
  latest_num = pos 0;
  latest_hash = first.hash;
}

chain-IsConsistent : IsConsistent chain
unfolding runs get_latest_num get_latest_hash
chain-IsConsistent = (refl, refl)

update_canonical-IsConsistent_example : IsConsistent (update_canonical toy_json 5 chain).1
update_canonical-IsConsistent_example =
    update_canonical-IsConsistent toy_json 5 chain chain-IsConsistent

planned : plan 5 child chain ≡ ok (first, child ∷ [])
unfolding runs get_latest_num get_latest_hash get_latest_block get_block_by_hash descend meet plan
planned = refl

plan-Branch_example :
    (latest : Block) × (get_latest_block chain ≡ ok latest)
    × Branch chain.fork_manager latest child first (child ∷ [])
plan-Branch_example = plan-Branch 5 child first (child ∷ []) chain planned

abbrev pub no_stores : Stores
no_stores = record { blocknum = []; block = []; blockstate = [] }

new-genesis_example :
    (made : ChainCanonicaliser) × (b : Block) × (Node.new toy_json no_stores ≡ ok made)
    × (made.latest_num ≡ pos 0)
    × IsConsistent made
    × (get_block_by_number (pos 0) made ≡ ok b)
    × IsProper b
    × (b.hash ≡ made.latest_hash)
    × ((a : Bytes) → get_balance toy_json a (pos 0) made ≡ ok (pos 0))
new-genesis_example =
    new-genesis toy_json no_stores toy_laws toy_json_law
      (unfold Storage.exists contains lookup in refl)
