-- ===== src/Fork/Acceptance.antt =====
-- What the handler of "bc:new_block" does with a block that passes its checks.
use blockchain_workshop.Prelude.{
  ℕ, zero, suc, ◌≡◌, refl, ap, ◌∙◌, inl, inr, true, false, Option, none, some, ok, Action, Bytes,
  arith, ==_refl, Bytes_eq, Option-cases, Bool-cases,
}
use blockchain_workshop.Prelude.Int.{ltb_ℤ, ℤ_eq}
use blockchain_workshop.Prelude.Actions.{pure, reads, modify, ◌>>◌, >>=-eq-returned}
use blockchain_workshop.Text.Hex.{hex}
use blockchain_workshop.Crypto.{Crypto, CryptoLaws}
use blockchain_workshop.Types.Block
use blockchain_workshop.Types.Block.{Block, starts_with_zeros}
use blockchain_workshop.Types.Parsed.{IsProper, deserialize-IsProper}
use blockchain_workshop.Chain.Blocks.{difficulty}
use blockchain_workshop.Fork.{
  ForkManager, is_confirmed_block, add_block, update_chain_tip, prevalidate_block,
  confirm_ancestors, confirm_block_and_ancestors, find_unknown, query_parent,
  add_block_and_ancestors, finish_walk, handle_new_block,
}
use blockchain_workshop.Fork.Confirm.{IsSound}
use blockchain_workshop.Fork.Memory.{confirm_ancestors-confirmed, update_chain_tip-Holds}
use blockchain_workshop.Fork.Soundness.{confirm_walked, add_block-IsSound}

module _ ⦃c : Crypto⦄ where
  pub prevalidate_block_lem :
      (b : Block)
      → IsProper b
      → prevalidate_block b.hash b ≡ ok (starts_with_zeros difficulty (hex b.hash), b)
  unfolding prevalidate_block Block.has_difficulty
  prevalidate_block_lem b p = ground (arith, ==_refl b.hash, p.hashed)

  pub add_walked :
      (fuel : ℕ) (b : Block) (o : Option Block) (fm : ForkManager)
      → find_unknown fuel b (add_block b fm) ≡ ok o
      → add_block_and_ancestors fuel b fm ≡ finish_walk fuel b o (add_block b fm)
  unfolding add_block_and_ancestors
  add_walked fuel b o fm walked =
      >>=-eq-returned (reads (find_unknown fuel b)) (finish_walk fuel b) (add_block b fm)
        (ap (λ r. (r, add_block b fm)) walked)

  -- A block that passes the checks goes to the walk.
  handle_read :
      (fuel : ℕ) (message : Bytes) (b : Block) (fm : ForkManager)
      → Block.deserialize message ≡ ok b
      → starts_with_zeros difficulty (hex b.hash) ≡ true
      → handle_new_block fuel message fm ≡ (add_block_and_ancestors fuel b >> pure true) fm
  unfolding handle_new_block
  handle_read fuel message b fm read hard =
      rw (read, prevalidate_block_lem b (deserialize-IsProper message b read), hard) refl

  pub then_true :
      (m : Action ForkManager (Unit {0})) (fm fm' : ForkManager)
      → m fm ≡ (ok tt, fm')
      → (m >> pure true) fm ≡ (ok true, fm')
  then_true m fm fm' e = >>=-eq-returned m (λ _. pure true) fm e

  -- The tip is not below the block.
  abbrev pub IsTip : Block → ForkManager → Type 0
  IsTip b fm = (top : Block) × (fm.highest_block ≡ some top) × (ltb_ℤ top.number b.number ≡ false)

  pub update_chain_tip-IsTip : (b : Block) (fm : ForkManager) → IsTip b (update_chain_tip b fm)
  unfolding update_chain_tip
  update_chain_tip-IsTip b fm = elim (Option-cases fm.highest_block) [
    | inl e ↦ rw e (b, refl, ground arith)
    | inr (top, e) ↦ elim (Bool-cases (ltb_ℤ top.number b.number)) [
      | inl t ↦ rw (e, t) (b, refl, ground arith)
      | inr t ↦ rw (e, t) (top, refl, t)
    ]
  ]

  pub run_confirm :
      (fuel : ℕ) (b : Block) (fm : ForkManager)
      → (confirm_ancestors fuel b fm).0 ≡ ok tt
      → confirm_block_and_ancestors fuel b fm
        ≡ (ok tt, update_chain_tip b (confirm_ancestors fuel b fm).1)
  unfolding confirm_block_and_ancestors
  run_confirm fuel b fm e =
      >>=-eq-returned (confirm_ancestors fuel b) (λ _. modify (update_chain_tip b)) fm
        (ap (λ r. (r, (confirm_ancestors fuel b fm).1)) e)

  -- The whole run of the handler on a block whose ancestors are known.
  handle_known :
      (laws : CryptoLaws c) (fuel : ℕ) (message : Bytes) (b : Block) (fm : ForkManager)
      → Block.deserialize message ≡ ok b
      → starts_with_zeros difficulty (hex b.hash) ≡ true
      → IsSound none fm
      → find_unknown fuel b (add_block b fm) ≡ ok none
      → handle_new_block fuel message fm
        ≡ (ok true, update_chain_tip b (confirm_ancestors fuel b (add_block b fm)).1)
  handle_known laws fuel message b fm read hard s walked =
      let proper = deserialize-IsProper message b read in
      let fm1 = add_block b fm in
      let (done, _) =
        confirm_walked laws fuel b fm1 proper (add_block-IsSound b fm proper s) walked in
      handle_read fuel message b fm read hard
      ∙ then_true (add_block_and_ancestors fuel b) fm _
          (add_walked fuel b none fm walked ∙ run_confirm fuel b fm1 done)

  pub confirmed_walked :
      (fuel : ℕ) (b : Block) (fm : ForkManager)
      → find_unknown fuel b fm ≡ ok none
      → is_confirmed_block b.hash (confirm_ancestors fuel b fm).1 ≡ true
  unfolding find_unknown
  confirmed_walked zero b fm walked = cc
  confirmed_walked (suc fuel) b fm walked = confirm_ancestors-confirmed fuel b fm

  -- Under the laws of the cryptography, when the fork manager is sound, and a message reads as a
  -- block that has the difficulty and from which the walk finds every ancestor within the fuel: the
  -- handler does not raise and answers True, the block is confirmed, and the chain tip is not below
  -- it. So that fuel is enough for the loop that confirms the ancestors, too.
  pub handle_new_block_accepts :
      (laws : CryptoLaws c) (fuel : ℕ) (message : Bytes) (b : Block) (fm : ForkManager)
      → Block.deserialize message ≡ ok b
      → starts_with_zeros difficulty (hex b.hash) ≡ true
      → IsSound none fm
      → find_unknown fuel b (add_block b fm) ≡ ok none
      → ((handle_new_block fuel message fm).0 ≡ ok true)
        × (is_confirmed_block b.hash (handle_new_block fuel message fm).1 ≡ true)
        × IsTip b (handle_new_block fuel message fm).1
  handle_new_block_accepts laws fuel message b fm read hard s walked =
      rw (handle_known laws fuel message b fm read hard s walked) (
        refl,
        update_chain_tip-Holds b.hash b _ (confirmed_walked fuel b (add_block b fm) walked),
        update_chain_tip-IsTip b _,
      )

  -- When a message reads as a block that has the difficulty, and the walk ends at a block whose
  -- parent is not known: the handler answers True, asks the network for that parent, and changes
  -- nothing else but the known blocks, which get the block.
  pub handle_new_block_asks :
      (fuel : ℕ) (message : Bytes) (b cur : Block) (fm : ForkManager)
      → Block.deserialize message ≡ ok b
      → starts_with_zeros difficulty (hex b.hash) ≡ true
      → find_unknown fuel b (add_block b fm) ≡ ok (some cur)
      → handle_new_block fuel message fm ≡ (ok true, query_parent b cur (add_block b fm))
  handle_new_block_asks fuel message b cur fm read hard walked =
      handle_read fuel message b fm read hard
      ∙ then_true (add_block_and_ancestors fuel b) fm _ (add_walked fuel b (some cur) fm walked)

  -- A block that can be read but does not have the difficulty is refused: the handler answers
  -- False, and nothing changes.
  pub handle_new_block_refuses :
      (fuel : ℕ) (message : Bytes) (b : Block) (fm : ForkManager)
      → Block.deserialize message ≡ ok b
      → starts_with_zeros difficulty (hex b.hash) ≡ false
      → handle_new_block fuel message fm ≡ (ok false, fm)
  unfolding handle_new_block
  handle_new_block_refuses fuel message b fm read easy =
      rw (read, prevalidate_block_lem b (deserialize-IsProper message b read), easy) refl
