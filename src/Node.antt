-- ===== src/Node.antt =====
-- class BlockchainNode and _make_genesis of bcws/blockchain.py: the node over the three stores.
-- Its threads are not here (bcws/utils.py, InfiniteLoop).
pub mod Genesis
pub mod Mining
pub mod Producer
pub mod Mined
pub mod Wallet
use blockchain_workshop.Prelude.{
  ℕ, zero, suc, [], ◌∷◌, true, false, Result, ok, Bytes, codes, ◌>>=◌,
}
use blockchain_workshop.Prelude.Int.{ℤ, pos}
use blockchain_workshop.Text.Hex.{hex}
use blockchain_workshop.Storage
use blockchain_workshop.Storage.{Store}
use blockchain_workshop.Crypto.{Crypto}
use blockchain_workshop.Types.Block
use blockchain_workshop.Types.Block.{Block}
use blockchain_workshop.Chain.State
use blockchain_workshop.Chain.State.{BlockchainState, balance_of, nonce_of}
use blockchain_workshop.Disk.{Json, save_to_disk}
use blockchain_workshop.Fork
use blockchain_workshop.Canonical
use blockchain_workshop.Canonical.{ChainCanonicaliser, get_state_at}

-- b"\0" * n
unfoldable pub zeros : ℕ → Bytes
zeros zero = []
zeros (suc n) = 0 ∷ zeros n

-- sm.get_storage("blocknum"), ("block") and ("blockstate")
pub record Stores : Type 0 where
  pub blocknum : Store
  pub block : Store
  pub blockstate : Store

module _ ⦃c : Crypto⦄ where
  unfoldable pub make_genesis : Result (Block × BlockchainState)
  unfolding zeros
  make_genesis = do
    genesis ← Block.calculate_hash (record {
      number = pos 0;
      nonce = pos 0;
      parent_hash = zeros 32;
      coinbase = zeros 33;
      transactions = [];
      hash = [];
    })
    ok (genesis, record (State.new (pos 0)) { block_hash = genesis.hash })

module _ ⦃c : Crypto⦄ (json : Json) where
  unfoldable pub create_genesis : Stores → Result Stores
  create_genesis st = do
    (genesis, state) ← make_genesis
    text ← Block.serialize genesis
    ok (record {
      block = Storage.save (hex genesis.hash) text st.block;
      blocknum =
          Storage.save (codes "latest") (codes "0")
            (Storage.save (codes "0") genesis.hash st.blocknum);
      blockstate = save_to_disk json state st.blockstate;
    })

  -- BlockchainNode(sm, gossip, search): a genesis is made unless the stores hold a chain.
  unfoldable pub new : Stores → Result ChainCanonicaliser
  new st = elim (Storage.exists (codes "latest") st.blocknum) [
    | true ↦ Canonical.new (Fork.new st.block) st.blocknum st.blockstate
    | false ↦ do
      st' ← create_genesis st
      Canonical.new (Fork.new st'.block) st'.blocknum st'.blockstate
  ]

  unfoldable pub get_balance : Bytes → ℤ → ChainCanonicaliser → Result ℤ
  get_balance address number chain = do
    s ← get_state_at json number chain
    ok (balance_of s address)

  unfoldable pub get_nonce : Bytes → ℤ → ChainCanonicaliser → Result ℤ
  get_nonce address number chain = do s ← get_state_at json number chain; ok (nonce_of s address)
