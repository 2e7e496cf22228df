-- ===== src/Canonical.antt =====
-- class ChainCanonicaliser of bcws/blockchain.py: the chain that the node follows, as it is stored.
-- The two `while` loops of update_canonical take fuel.
pub mod Latest
pub mod Plan
use blockchain_workshop.Prelude.{
  ℕ, zero, suc, [], ◌∷◌, ◌++◌, List, Bool, true, false, not, Option, none, some, Result, ok, err,
  value_error, assertion_error, out_of_fuel, Action, Bytes, Text, codes, ◌==◌, if◌then◌else◌,
  Bytes_eq,
}
use blockchain_workshop.Prelude.Int.{ℤ, pos, pos_part, negsuc, ltb_ℤ, ◌+ℤ◌, ℤ_eq}
use blockchain_workshop.Prelude.Actions.{pure, raise, lift, gets, reads, modify, ◌>>=◌, ◌>>◌}
use blockchain_workshop.Text.Hex.{hex}
use blockchain_workshop.Text.Decimal.{str, int}
use blockchain_workshop.Storage
use blockchain_workshop.Storage.{Store}
use blockchain_workshop.Crypto.{Crypto}
use blockchain_workshop.Types.Block
use blockchain_workshop.Types.Block.{Block}
use blockchain_workshop.Chain.State.{BlockchainState}
use blockchain_workshop.Chain.Blocks.{apply_block}
use blockchain_workshop.Disk.{Json, load_from_disk, save_to_disk}
use blockchain_workshop.Fork.{ForkManager, get_parent}

-- The block storage is the fork manager's.
pub record ChainCanonicaliser : Type 0 where
  pub fork_manager : ForkManager
  pub blocknum_storage : Store
  pub blockstate_storage : Store
  pub latest_num : ℤ
  pub latest_hash : Bytes

unfoldable pub get_latest_num : Store → Result ℤ
get_latest_num blocknum = elim (Storage.load (codes "latest") blocknum) [
  | none ↦ ok (pos 0)
  | some data' ↦ int data'
]

abbrev found {ℓ} : {A : Type ℓ} → Option A → Result A
found none = err value_error
found (some a) = ok a

unfoldable pub get_latest_hash : Store → Result Bytes
get_latest_hash blocknum = elim (get_latest_num blocknum) [
  | ok num ↦ found (Storage.load (str num) blocknum)
  | err e ↦ err e
]

-- ChainCanonicaliser(…)
unfoldable pub new : ForkManager → Store → Store → Result ChainCanonicaliser
new fm blocknum blockstate = elim (get_latest_num blocknum) [
  | err e ↦ err e
  | ok num ↦ elim (get_latest_hash blocknum) [
    | err e ↦ err e
    | ok h ↦ ok (record {
      fork_manager = fm;
      blocknum_storage = blocknum;
      blockstate_storage = blockstate;
      latest_num = num;
      latest_hash = h;
    })
  ]
]

module _ ⦃c : Crypto⦄ where
  unfoldable pub get_block_by_hash : Bytes → Store → Result Block
  get_block_by_hash h blocks = elim (Storage.load (hex h) blocks) [
    | none ↦ err value_error
    | some data' ↦ Block.deserialize data'
  ]

  unfoldable pub get_latest_block : ChainCanonicaliser → Result Block
  get_latest_block chain = elim (get_latest_hash chain.blocknum_storage) [
    | ok h ↦ get_block_by_hash h chain.fork_manager.block_storage
    | err e ↦ err e
  ]

  -- Number -1 is the latest block.
  unfoldable pub get_block_by_number : ℤ → ChainCanonicaliser → Result Block
  get_block_by_number number chain =
      let n = if number == negsuc 0 then chain.latest_num else number in
      elim (Storage.load (str n) chain.blocknum_storage) [
        | none ↦ err value_error
        | some h ↦ get_block_by_hash h chain.fork_manager.block_storage
      ]

  -- The first loop: down from the tip to the height of the latest block. `todo` holds the blocks
  -- that were appended, the last one first.
  unfoldable pub descend : ℕ → Block → ℤ → List Block → ForkManager → Result (Block × List Block)
  descend zero tip height todo fm = err out_of_fuel
  descend (suc fuel) tip height todo fm =
      if ltb_ℤ height tip.number
      then elim (get_parent tip fm) [
        | ok parent ↦ descend fuel parent height (tip ∷ todo) fm
        | err e ↦ err e
      ]
      else ok (tip, todo)

  -- The second loop: down both chains until they meet.
  unfoldable pub meet : ℕ → Block → Block → List Block → ForkManager → Result (Block × List Block)
  meet zero tip latest todo fm = err out_of_fuel
  meet (suc fuel) tip latest todo fm =
      if tip.hash == latest.hash then ok (latest, todo) else elim (get_parent tip fm) [
        | err e ↦ err e
        | ok parent ↦ elim (get_block_by_hash latest.parent_hash fm.block_storage) [
          | err e ↦ err e
          | ok before ↦ meet fuel parent before (tip ∷ todo) fm
        ]
      ]

  -- The part of update_canonical before the state changes: the block where the chains meet and the
  -- blocks to apply from there, the lowest first.
  unfoldable pub plan : ℕ → Block → ChainCanonicaliser → Result (Block × List Block)
  plan fuel tip chain = elim (get_latest_block chain) [
    | err e ↦ err e
    | ok latest ↦ elim (descend fuel tip latest.number [] chain.fork_manager) [
      | err e ↦ err e
      | ok (low, todo) ↦ meet fuel low latest todo chain.fork_manager
    ]
  ]

module _ ⦃c : Crypto⦄ (json : Json) where
  unfoldable pub get_latest_state : ChainCanonicaliser → Result BlockchainState
  get_latest_state chain = elim (get_latest_num chain.blocknum_storage) [
    | ok num ↦ load_from_disk json num chain.blockstate_storage
    | err e ↦ err e
  ]

  unfoldable pub get_state_at : ℤ → ChainCanonicaliser → Result BlockchainState
  get_state_at number chain =
      let n = if number == negsuc 0 then chain.latest_num else number in
      load_from_disk json n chain.blockstate_storage

  -- What is stored for a block that was applied.
  unfoldable pub record_block : Block → BlockchainState → ChainCanonicaliser → ChainCanonicaliser
  record_block b s chain = record chain {
    blockstate_storage = save_to_disk json s chain.blockstate_storage;
    blocknum_storage =
        Storage.save (codes "latest") (str b.number)
          (Storage.save (str b.number) b.hash chain.blocknum_storage);
    latest_num = b.number;
    latest_hash = b.hash;
  }

  -- One round of the loop over reversed(todo).
  unfoldable pub apply_one : Block → Action (BlockchainState × ChainCanonicaliser) (Unit {0})
  apply_one b (s, chain) = elim ((apply_block b s).0) [
    | err e ↦ (err e, ((apply_block b s).1, chain))
    | ok b' ↦
        if (apply_block b s).1.block_number == b'.number
        then (ok tt, ((apply_block b s).1, record_block b' (apply_block b s).1 chain))
        else (err assertion_error, ((apply_block b s).1, chain))
  ]

  unfoldable pub apply_all : List Block → Action (BlockchainState × ChainCanonicaliser) (Unit {0})
  apply_all [] = pure tt
  apply_all (b ∷ bs) = apply_one b >> apply_all bs

  unfoldable pub switch_to : Block → List Block → Action ChainCanonicaliser (Unit {0})
  switch_to base todo chain = elim (load_from_disk json base.number chain.blockstate_storage) [
    | err e ↦ (err e, chain)
    | ok s ↦ let (r, p) = apply_all todo (s, chain) in (r, p.1)
  ]

  unfoldable pub update_canonical : ℕ → Action ChainCanonicaliser (Unit {0})
  update_canonical fuel chain = elim (chain.fork_manager.highest_block) [
    | none ↦ (ok tt, chain)
    | some tip ↦ elim (plan fuel tip chain) [
      | err e ↦ (err e, chain)
      | ok (base, todo) ↦ switch_to base todo chain
    ]
  ]

  -- The blocks that iter_blocks yields, `count` of them from `number` on.
  unfoldable pub blocks_from : ℕ → ℤ → ChainCanonicaliser → Result (List Block)
  blocks_from zero number chain = ok []
  blocks_from (suc count) number chain = elim (get_block_by_number number chain) [
    | err e ↦ err e
    | ok b ↦ elim (blocks_from count (number +ℤ pos 1) chain) [
      | err e ↦ err e
      | ok bs ↦ ok (b ∷ bs)
    ]
  ]

  unfoldable pub iter_blocks : ChainCanonicaliser → Result (List Block)
  iter_blocks chain = blocks_from (pos_part (chain.latest_num +ℤ pos 1)) (pos 0) chain
