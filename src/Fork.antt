-- ===== src/Fork.antt =====
-- class ForkManager of bcws/blockchain.py: the blocks that the node knows and those that it has
-- confirmed. The two `while True` loops take fuel.
pub mod Links
pub mod Confirm
pub mod Walk
pub mod Soundness
pub mod Memory
pub mod Acceptance
pub mod Termination
pub mod Growth
pub mod Arrival
use blockchain_workshop.Prelude.{
  ℕ, zero, suc, [], ◌∷◌, ◌++◌, List, Bool, true, false, not, ◌||◌, Option, none, some, Result, ok,
  err, value_error, out_of_fuel, Action, Bytes, Text, codes, ◌==◌, if◌then◌else◌, Bytes_eq,
}
use blockchain_workshop.Prelude.Int.{ℤ, pos, ◌+ℤ◌, ltb_ℤ, ℤ_eq}
use blockchain_workshop.Prelude.Dict.{Dict, lookup, contains, insert}
use blockchain_workshop.Prelude.Actions.{pure, lift, gets, reads, modify, ◌>>=◌, ◌>>◌}
use blockchain_workshop.Text.Hex.{hex}
use blockchain_workshop.Storage
use blockchain_workshop.Storage.{Store}
use blockchain_workshop.Crypto.{Crypto}
use blockchain_workshop.Types.Block
use blockchain_workshop.Types.Block.{Block}
use blockchain_workshop.Chain.Blocks.{difficulty}

-- A call of Search.query for the parent of `cur_block`, whose result handler holds both blocks.
pub record Query : Type 0 where
  pub kind : Text
  pub payload : Bytes
  pub block : Block
  pub cur_block : Block

-- `queries` are the calls of Search.query so far, the last one first.
pub record ForkManager : Type 0 where
  pub known_blocks : Dict Bytes Block
  pub confirmed_blocks : List Bytes
  pub highest_block : Option Block
  pub block_storage : Store
  pub queries : List Query

-- ForkManager(gossip, search, block_storage)
abbrev pub new : Store → ForkManager
new storage = record {
  known_blocks = [];
  confirmed_blocks = [];
  highest_block = none;
  block_storage = storage;
  queries = [];
}

unfoldable pub member : Bytes → List Bytes → Bool
member h [] = false
member h (j ∷ hs) = j == h || member h hs

unfoldable pub is_confirmed_block : Bytes → ForkManager → Bool
is_confirmed_block h fm = member h fm.confirmed_blocks || Storage.exists (hex h) fm.block_storage

unfoldable pub is_known_block : Bytes → ForkManager → Bool
unfolding is_confirmed_block
is_known_block h fm = contains h fm.known_blocks || is_confirmed_block h fm

unfoldable pub add_block : Block → ForkManager → ForkManager
add_block b fm = record fm { known_blocks = insert b.hash b fm.known_blocks }

unfoldable pub update_chain_tip : Block → ForkManager → ForkManager
update_chain_tip b fm = elim fm.highest_block [
  | none ↦ record fm { highest_block = some b }
  | some top ↦ if ltb_ℤ top.number b.number then record fm { highest_block = some b } else fm
]

module _ ⦃c : Crypto⦄ where
  abbrev parse_stored : Option Bytes → Result (Option Block)
  parse_stored none = ok none
  parse_stored (some data') = elim (Block.deserialize data') [ ok b ↦ ok (some b) | err e ↦ err e ]

  unfoldable pub get_known_block : Bytes → ForkManager → Result (Option Block)
  get_known_block h fm = elim (lookup h fm.known_blocks) [
    | some b ↦ ok (some b)
    | none ↦ parse_stored (Storage.load (hex h) fm.block_storage)
  ]

  abbrev present : Option Block → Result Block
  present none = err value_error
  present (some b) = ok b

  unfoldable pub get_parent : Block → ForkManager → Result Block
  get_parent b fm = elim (get_known_block b.parent_hash fm) [ ok o ↦ present o | err e ↦ err e ]

  abbrev answer : Option Block → Result (Option Bytes)
  answer none = ok none
  answer (some b) = elim (Block.serialize b) [ ok text ↦ ok (some text) | err e ↦ err e ]

  -- The search handler of "block".
  unfoldable pub search_block : Bytes → ForkManager → Result (Option Bytes)
  search_block h fm = elim (get_known_block h fm) [ ok o ↦ answer o | err e ↦ err e ]

  -- The block comes back as the difficulty test left it.
  unfoldable pub prevalidate_block : Bytes → Block → Result (Bool × Block)
  prevalidate_block h b =
      if not (b.hash == h) then ok (false, b) else Block.has_difficulty difficulty b

  unfoldable pub confirm_block : Block → Action ForkManager (Unit {0})
  confirm_block b = do
    modify (λ fm. record fm { confirmed_blocks = b.hash ∷ fm.confirmed_blocks })
    text ← lift (Block.serialize b)
    modify (λ fm. record fm { block_storage = Storage.save (hex b.hash) text fm.block_storage })

  unfoldable pub confirm_ancestors : ℕ → Block → Action ForkManager (Unit {0})
  confirm_ancestors zero b = λ fm. (err out_of_fuel, fm)
  confirm_ancestors (suc fuel) b = do
    confirmed ← gets (is_confirmed_block b.hash)
    if confirmed then pure tt else do
      confirm_block b
      if b.number == pos 0
          then pure tt
          else do parent ← reads (get_parent b); confirm_ancestors fuel parent

  unfoldable pub confirm_block_and_ancestors : ℕ → Block → Action ForkManager (Unit {0})
  confirm_block_and_ancestors fuel b = do confirm_ancestors fuel b; modify (update_chain_tip b)

  -- The walk down the known parents: `none` if it reaches block 0 or a confirmed block, or the
  -- block whose parent is not known.
  unfoldable pub find_unknown : ℕ → Block → ForkManager → Result (Option Block)
  find_unknown zero b fm = err out_of_fuel
  find_unknown (suc fuel) b fm =
      if b.number == pos 0
      then ok none
      else if is_confirmed_block b.hash fm
      then ok none
      else if not (is_known_block b.parent_hash fm)
      then ok (some b)
      else elim (get_parent b fm) [ ok parent ↦ find_unknown fuel parent fm | err e ↦ err e ]

  unfoldable pub query_parent : Block → Block → ForkManager → ForkManager
  query_parent b cur fm = record fm {
    queries =
        record { kind = codes "block"; payload = cur.parent_hash; block = b; cur_block = cur }
        ∷ fm.queries;
  }

  -- What follows the walk: all ancestors are known, or the missing parent of `cur` is asked for.
  abbrev pub finish_walk : ℕ → Block → Option Block → Action ForkManager (Unit {0})
  finish_walk fuel b none = confirm_block_and_ancestors fuel b
  finish_walk fuel b (some cur) = modify (query_parent b cur)

  unfoldable pub add_block_and_ancestors : ℕ → Block → Action ForkManager (Unit {0})
  add_block_and_ancestors fuel b = do
    modify (add_block b)
    found ← reads (find_unknown fuel b)
    finish_walk fuel b found

  abbrev pub take_block : ℕ → Bool × Block → Action ForkManager Bool
  take_block fuel (false, b) = pure false
  take_block fuel (true, b) = add_block_and_ancestors fuel b >> pure true

  -- The gossip handler of "bc:new_block".
  unfoldable pub handle_new_block : ℕ → Bytes → Action ForkManager Bool
  handle_new_block fuel message = do
    b ← lift (Block.deserialize message)
    checked ← lift (prevalidate_block b.hash b)
    take_block fuel checked

  abbrev pub take_parent : ℕ → Query → Bool × Block → Action ForkManager Bool
  take_parent fuel q (false, parent) = pure true
  take_parent fuel q (true, parent) = do
    modify (add_block parent)
    add_block_and_ancestors fuel q.block
    pure true

  unfoldable pub read_result : ℕ → Query → Block → Action ForkManager Bool
  read_result fuel q parent =
      if not (q.cur_block.parent_hash == parent.hash)
      then pure false
      else if not (q.cur_block.number == (parent.number +ℤ pos 1))
      then pure true
      else do checked ← lift (prevalidate_block parent.hash parent); take_parent fuel q checked

  -- The closure _result_handler of a query; True ends the search.
  unfoldable pub handle_result : ℕ → Query → Option Bytes → Action ForkManager Bool
  handle_result fuel q none = pure true
  handle_result fuel q (some data') = do
    parent ← lift (Block.deserialize data')
    read_result fuel q parent

  unfoldable pub produce_block : ℕ → Block → Action ForkManager (Unit {0})
  produce_block = confirm_block_and_ancestors
