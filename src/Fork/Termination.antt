-- ===== src/Fork/Termination.antt =====
-- Enough fuel for a new block: more than the number of its ancestors that the walk passes.
use blockchain_workshop.Prelude.{
  ℕ, zero, suc, ◌<◌, ◌≡◌, ap, inl, inr, true, false, Option, none, some, ok, Bytes, arith, ◌==◌,
  Bytes_eq, Bool-cases,
}
use blockchain_workshop.Prelude.Int.{pos, int_eq_iff, ℤ_eq}
use blockchain_workshop.Text.Hex.{hex}
use blockchain_workshop.Crypto.{Crypto, CryptoLaws}
use blockchain_workshop.Types.Block
use blockchain_workshop.Types.Block.{Block, starts_with_zeros}
use blockchain_workshop.Chain.Blocks.{difficulty}
use blockchain_workshop.Fork.{
  ForkManager, is_confirmed_block, is_known_block, add_block, get_parent, find_unknown,
  handle_new_block,
}
use blockchain_workshop.Fork.Confirm.{IsSound}
use blockchain_workshop.Fork.Acceptance.{handle_new_block_accepts, handle_new_block_asks}

module _ ⦃c : Crypto⦄ where
  -- After so many steps to a parent the walk is at a block 0, a confirmed block, or one whose parent
  -- is not known.
  pub data Ancestry (fm : ForkManager) : ℕ → Block → Type 0 where
    root : {b : Block} → b.number ≡ pos 0 → Ancestry fm zero b
    settled : {b : Block} → is_confirmed_block b.hash fm ≡ true → Ancestry fm zero b
    orphaned : {b : Block} → is_known_block b.parent_hash fm ≡ false → Ancestry fm zero b
    above :
        {n : ℕ} {b parent : Block}
        → get_parent b fm ≡ ok parent
        → Ancestry fm n parent
        → Ancestry fm (suc n) b

  walk_ends :
      (fuel n : ℕ) (b : Block) (fm : ForkManager)
      → n < fuel
      → Ancestry fm n b
      → (o : Option Block) × (find_unknown fuel b fm ≡ ok o)
  unfolding find_unknown
  walk_ends zero n b fm lt a = absurd (omega arith)
  walk_ends (suc fuel) _ b fm lt (root e) = (none, ground (arith, int_eq_iff b.number (pos 0)))
  walk_ends (suc fuel) _ b fm lt (settled e) = elim (Bool-cases (b.number == pos 0)) [
    | inl z ↦ (none, ground arith)
    | inr z ↦ (none, ground arith)
  ]
  walk_ends (suc fuel) _ b fm lt (orphaned e) = elim (Bool-cases (b.number == pos 0)) [
    | inl z ↦ (none, ground arith)
    | inr z ↦ elim (Bool-cases (is_confirmed_block b.hash fm)) [
      | inl t ↦ (none, ground arith)
      | inr t ↦ (some b, ground arith)
    ]
  ]
  walk_ends (suc fuel) (suc n) b fm lt (above {parent = parent} e a) =
      let (o, h) = walk_ends fuel n parent fm (omega arith) a in
      elim (Bool-cases (b.number == pos 0)) [
        | inl z ↦ (none, ground arith)
        | inr z ↦ elim (Bool-cases (is_confirmed_block b.hash fm)) [
          | inl t ↦ (none, ground arith)
          | inr t ↦ elim (Bool-cases (is_known_block b.parent_hash fm)) [
            | inl k ↦ (o, ground arith)
            | inr k ↦ (some b, ground arith)
          ]
        ]
      ]

  answered :
      (laws : CryptoLaws c) (fuel : ℕ) (message : Bytes) (b : Block) (fm : ForkManager)
      (o : Option Block)
      → Block.deserialize message ≡ ok b
      → starts_with_zeros difficulty (hex b.hash) ≡ true
      → IsSound none fm
      → find_unknown fuel b (add_block b fm) ≡ ok o
      → (handle_new_block fuel message fm).0 ≡ ok true
  answered laws fuel message b fm none read hard s e =
      (handle_new_block_accepts laws fuel message b fm read hard s e).0
  answered laws fuel message b fm (some cur) read hard s e =
      ap (λ r. r.0) (handle_new_block_asks fuel message b cur fm read hard e)

  -- Under the laws of the cryptography, when the fork manager is sound, a message reads as a block
  -- that has the difficulty, and the walk from it is over after `n` steps to a parent: with any fuel
  -- above `n` both loops end, and the handler answers True without an exception.
  pub handle_new_block_returns :
      (laws : CryptoLaws c) (fuel n : ℕ) (message : Bytes) (b : Block) (fm : ForkManager)
      → Block.deserialize message ≡ ok b
      → starts_with_zeros difficulty (hex b.hash) ≡ true
      → IsSound none fm
      → Ancestry (add_block b fm) n b
      → n < fuel
      → (handle_new_block fuel message fm).0 ≡ ok true
  handle_new_block_returns laws fuel n message b fm read hard s a lt =
      let (o, e) = walk_ends fuel n b (add_block b fm) lt a in
      answered laws fuel message b fm o read hard s e
