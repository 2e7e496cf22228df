-- ===== src/Node/Producer.antt =====
-- _produce_block and _block_producer of class BlockchainNode.
use blockchain_workshop.Prelude.{ℕ, ◌∷◌, List, Bool, Option, none, some, Action, Bytes, codes}
use blockchain_workshop.Prelude.Actions.{pure, lift, reads, modify, ◌>>=◌, ◌>>◌}
use blockchain_workshop.Crypto.{Crypto}
use blockchain_workshop.Types.Block
use blockchain_workshop.Types.Block.{Block}
use blockchain_workshop.Mempool.{Mempool, Broadcast}
use blockchain_workshop.Chain.State.{BlockchainState}
use blockchain_workshop.Chain.Blocks.{build_block}
use blockchain_workshop.Disk.{Json}
use blockchain_workshop.Fork
use blockchain_workshop.Canonical.{ChainCanonicaliser, get_latest_state, update_canonical}
use blockchain_workshop.Node.Mining.{mine}

-- The parts of a node that the producer reads and changes, and what it gave to Gossip.broadcast, the last
-- one first.
pub record Producer : Type 0 where
  pub canonicaliser : ChainCanonicaliser
  pub mempool : Mempool
  pub broadcasts : List Broadcast
  pub coinbase : Bytes

module _ ⦃c : Crypto⦄ (json : Json) where
  abbrev pub canonical_step : ℕ → Action Producer (Unit {0})
  canonical_step fuel p =
      let (r, chain) = update_canonical json fuel p.canonicaliser in
      (r, record p { canonicaliser = chain })

  -- The state that was loaded is dropped behind build_block.
  abbrev pub build_step : BlockchainState → Action Producer Block
  build_step s p =
      let (r, t) = build_block p.coinbase (s, p.mempool) in (r, record p { mempool = t.1 })

  unfoldable pub produce_block : ℕ → (ℕ → Bool) → Action Producer (Option Block)
  produce_block fuel changed = do
    canonical_step fuel
    s ← reads (λ p. get_latest_state json p.canonicaliser)
    b ← build_step s
    lift (mine fuel changed b)

  abbrev confirm_step : ℕ → Block → Action Producer (Unit {0})
  confirm_step fuel b p =
      let (r, fm) = Fork.produce_block fuel b p.canonicaliser.fork_manager in
      (r, record p { canonicaliser = record p.canonicaliser { fork_manager = fm } })

  unfoldable pub announce : ℕ → Option Block → Action Producer (Unit {0})
  announce fuel none = pure tt
  announce fuel (some b) = do
    confirm_step fuel b
    text ← lift (Block.serialize b)
    modify (λ p. record p {
      broadcasts = record { kind = codes "bc:new_block"; payload = text } ∷ p.broadcasts;
    })

  unfoldable pub block_producer : ℕ → (ℕ → Bool) → Action Producer (Unit {0})
  block_producer fuel changed = do found ← produce_block fuel changed; announce fuel found
