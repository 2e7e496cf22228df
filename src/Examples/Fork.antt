-- ===== src/Examples/Fork.antt =====
-- The fork manager at concrete inputs: a block 0 and its child.
use blockchain_workshop.Prelude.{[], ◌∷◌, ◌≡◌, refl, true, arith, none, some, ok, err, Bytes, codes}
use blockchain_workshop.Prelude.Int.{pos, ◌+ℤ◌}
use blockchain_workshop.Prelude.Dict.{lookup, contains}
use blockchain_workshop.Text.Hex.{hex}
use blockchain_workshop.Storage
use blockchain_workshop.Types.Block
use blockchain_workshop.Types.Block.{Block, starts_with_zeros}
use blockchain_workshop.Types.Parsed.{deserialize-IsProper}
use blockchain_workshop.Chain.Blocks.{difficulty}
use blockchain_workshop.Fork
use blockchain_workshop.Fork.{
  ForkManager, Query, member, is_confirmed_block, is_known_block, add_block, update_chain_tip,
  get_known_block, get_parent, prevalidate_block, confirm_block, confirm_ancestors,
  confirm_block_and_ancestors, find_unknown, query_parent, add_block_and_ancestors,
  handle_new_block, handle_result, read_result,
}
use blockchain_workshop.Fork.Confirm.{IsSound}
use blockchain_workshop.Fork.Soundness.{handle_new_block-IsSound, handle_result-IsSound}
use blockchain_workshop.Fork.Termination.{Ancestry, root, above, handle_new_block_returns}
use blockchain_workshop.Fork.Memory.{handle_new_block-confirmed}
use blockchain_workshop.Fork.Arrival.{question, missing_parent_arrives}
use blockchain_workshop.Fork.Acceptance.{IsTip, handle_new_block_accepts}
use blockchain_workshop.Examples.World.{toy, toy_laws, miner, executable}

abbrev hashed : Block → Block
hashed b = elim (Block.calculate_hash b) [ ok b' ↦ b' | err e ↦ b ]

abbrev pub written : Block → Bytes
written b = elim (Block.serialize b) [ ok text ↦ text | err e ↦ [] ]

abbrev pub first : Block
first = hashed (record Block.new { parent_hash = 0 ∷ 0 ∷ []; coinbase = miner })

abbrev pub child : Block
child = hashed (record Block.new { number = pos 1; parent_hash = first.hash; coinbase = miner })

abbrev empty : ForkManager
empty = Fork.new []

abbrev pub started : ForkManager
started = (handle_new_block 5 (written first) empty).1

empty-IsSound : IsSound none empty
unfolding Storage.exists member lookup contains
empty-IsSound = record {
  linked = λ h hb e. absurd (cc e);
  confirmed = λ h e. absurd (cc e);
  known = λ h b e. absurd (cc e);
}

started-IsSound : IsSound none started
started-IsSound = handle_new_block-IsSound toy_laws 5 (written first) empty empty-IsSound

handle_new_block-IsSound_example : IsSound none (handle_new_block 5 (written child) started).1
handle_new_block-IsSound_example =
    handle_new_block-IsSound toy_laws 5 (written child) started started-IsSound

first_read : Block.deserialize (written first) ≡ ok first
unfolding executable
first_read = refl

child_read : Block.deserialize (written child) ≡ ok child
unfolding executable
child_read = refl

child_hard : starts_with_zeros difficulty (hex child.hash) ≡ true
unfolding executable
child_hard = refl

-- What a run of the fork manager unfolds.
unfoldable pub runs : Unit {0}
unfolding executable Storage.exists Storage.load Storage.save member is_confirmed_block
    is_known_block add_block update_chain_tip get_known_block get_parent prevalidate_block
    confirm_block confirm_ancestors confirm_block_and_ancestors find_unknown query_parent
    add_block_and_ancestors handle_new_block handle_result read_result
runs = tt

child_walked : find_unknown 5 child (add_block child started) ≡ ok none
unfolding runs
child_walked = refl

first_confirmed : is_confirmed_block first.hash started ≡ true
unfolding runs
first_confirmed = refl

handle_new_block_accepts_example :
    ((handle_new_block 5 (written child) started).0 ≡ ok true)
    × (is_confirmed_block child.hash (handle_new_block 5 (written child) started).1 ≡ true)
    × IsTip child (handle_new_block 5 (written child) started).1
handle_new_block_accepts_example =
    handle_new_block_accepts toy_laws 5 (written child) child started child_read child_hard
      started-IsSound child_walked

handle_new_block-confirmed_example :
    is_confirmed_block first.hash (handle_new_block 5 (codes "7:x") started).1 ≡ true
handle_new_block-confirmed_example =
    handle_new_block-confirmed first.hash 5 (codes "7:x") started first_confirmed

abbrev query : Query
query = record { kind = codes "block"; payload = first.hash; block = child; cur_block = child }

handle_result-IsSound_example : IsSound none (handle_result 5 query (some (written first)) empty).1
handle_result-IsSound_example =
    handle_result-IsSound toy_laws 5 query (some (written first)) empty
      (deserialize-IsProper (written child) child child_read) empty-IsSound

-- The answer to the query confirms the child.
child_confirmed :
    is_confirmed_block child.hash (handle_result 5 query (some (written first)) empty).1 ≡ true
unfolding runs
child_confirmed = refl

first_parent : get_parent child (add_block child started) ≡ ok first
unfolding runs
first_parent = refl

child-Ancestry : Ancestry (add_block child started) 1 child
unfolding runs
child-Ancestry = above first_parent (root refl)

handle_new_block_returns_example : (handle_new_block 2 (written child) started).0 ≡ ok true
handle_new_block_returns_example =
    handle_new_block_returns toy_laws 2 1 (written child) child started child_read child_hard
      started-IsSound child-Ancestry (omega arith)

first_hard : starts_with_zeros difficulty (hex first.hash) ≡ true
unfolding executable
first_hard = refl

child_waits : find_unknown 5 child (add_block child empty) ≡ ok (some child)
unfolding runs
child_waits = refl

first_walked : find_unknown 1 first (add_block child empty) ≡ ok none
unfolding runs
first_walked = refl

child_follows : (first.hash ≡ child.parent_hash) × (child.number ≡ (first.number +ℤ pos 1))
unfolding executable ◌+ℤ◌
child_follows = (refl, refl)

missing_parent_arrives_example :
    ((handle_new_block 5 (written child) empty).1.queries ≡ question child child ∷ [])
    × (fm' : ForkManager) × (handle_result 6
          (question child child)
          (some (written first))
          (handle_new_block 5 (written child) empty).1
        ≡ (ok true, fm'))
    × (is_confirmed_block child.hash fm' ≡ true)
    × IsTip child fm'
missing_parent_arrives_example =
    missing_parent_arrives toy_laws 5 1 child child first empty (written child) (written first)
      child_read child_hard empty-IsSound child_waits first_read first_hard child_follows.0
      child_follows.1 first_walked
