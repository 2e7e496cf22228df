-- ===== src/Examples/Types.antt =====
-- Texts of transactions and blocks at concrete inputs.
use blockchain_workshop.Prelude.{[], ◌∷◌, ◌≡◌, refl, ok, err, Text, arith}
use blockchain_workshop.Prelude.Int.{pos}
use blockchain_workshop.Types.Block
use blockchain_workshop.Types.Block.{Block}
use blockchain_workshop.Types.RoundTrip.{IsWellFormed, block_round_trip}
use blockchain_workshop.Examples.World.{toy, miner, tx, executable}

tx-IsWellFormed : IsWellFormed tx
unfolding executable
tx-IsWellFormed = record {
  sender_bytes = omega arith;
  receiver_bytes = omega arith;
  sig_bytes = omega arith;
  has_sig = refl;
}

abbrev block : Block
block = record Block.new { number = pos 4; coinbase = miner; transactions = tx ∷ [] }

abbrev block_text : Text
block_text = elim (Block.serialize block) [ ok s ↦ s | err e ↦ [] ]

block_serialized : Block.serialize block ≡ ok block_text
unfolding executable
block_serialized = refl

block_round_trip_example :
    Block.deserialize block_text ≡ ok (record block { hash = toy.sha256 block_text })
block_round_trip_example =
    block_round_trip block block_text tt (omega arith) (tx-IsWellFormed, tt) block_serialized
