-- ===== src/Fork/Memory.antt =====
-- The fork manager forgets nothing: what is confirmed stays so, and the tip is never lowered.
use blockchain_workshop.Prelude.{
  ℕ, zero, suc, ◌∷◌, ◌≡◌, inl, inr, Bool, true, false, Option, none, some, Bytes, arith, ◌==◌,
  ==_refl, Bytes_eq, Bool-cases,
}
use blockchain_workshop.Prelude.Int.{pos, ℤ_eq}
use blockchain_workshop.Prelude.Actions.{pure, lift, reads, modify, ◌>>=◌, keeps_bind}
use blockchain_workshop.Text.Hex.{hex}
use blockchain_workshop.Storage
use blockchain_workshop.Crypto.{Crypto}
use blockchain_workshop.Types.Block
use blockchain_workshop.Types.Block.{Block}
use blockchain_workshop.Fork.{
  ForkManager, member, is_confirmed_block, add_block, update_chain_tip, prevalidate_block,
  get_parent, confirm_block, confirm_ancestors, confirm_block_and_ancestors, find_unknown,
  query_parent, add_block_and_ancestors, finish_walk, take_block, handle_new_block,
}
use blockchain_workshop.Fork.Links.{exists-save_mono}

module _ ⦃c : Crypto⦄ where
  module _ (h : Bytes) where
    abbrev pub Holds : ForkManager → Type 0
    Holds fm = is_confirmed_block h fm ≡ true

    marked-Holds :
        (b : Block) (fm : ForkManager)
        → Holds fm
        → Holds (record fm { confirmed_blocks = b.hash ∷ fm.confirmed_blocks })
    unfolding is_confirmed_block member
    marked-Holds b fm e = ground arith

    saved-Holds :
        (b : Block) (text : Bytes) (fm : ForkManager)
        → Holds fm
        → Holds (record fm { block_storage = Storage.save (hex b.hash) text fm.block_storage })
    unfolding is_confirmed_block
    saved-Holds b text fm e =
        ground (arith, exists-save_mono (hex b.hash) (hex h) text fm.block_storage)

    pub confirm_block-Holds :
        (b : Block) (fm : ForkManager) → Holds fm → Holds (confirm_block b fm).1
    unfolding confirm_block
    confirm_block-Holds b fm e =
        let m = marked-Holds b fm e in
        let fm1 = record fm { confirmed_blocks = b.hash ∷ fm.confirmed_blocks } in
        keeps_bind Holds
          (λ text.
            modify
              (λ f. record f { block_storage = Storage.save (hex b.hash) text f.block_storage }))
          (lift (Block.serialize b)) fm1 m (λ text _. saved-Holds b text fm1 m)

    pub update_chain_tip-Holds :
        (b : Block) (fm : ForkManager) → Holds fm → Holds (update_chain_tip b fm)
    unfolding is_confirmed_block update_chain_tip
    update_chain_tip-Holds b fm e = ground arith

    -- One round of the loop at a block that is not confirmed yet.
    confirm_round :
        (fuel : ℕ) (b : Block) (fm : ForkManager)
        → ((p : Block) (f : ForkManager) → Holds f → Holds (confirm_ancestors fuel p f).1)
        → is_confirmed_block b.hash fm ≡ false
        → Holds (confirm_block b fm).1
        → Holds (confirm_ancestors (suc fuel) b fm).1
    unfolding confirm_ancestors
    confirm_round fuel b fm ih open_block e = rw open_block (elim (Bool-cases (b.number == pos 0)) [
      | inl z ↦ rw z (keeps_bind Holds (λ _. pure tt) (confirm_block b) fm e (λ _ _. e))
      | inr z ↦ rw z (
          keeps_bind Holds (λ _. reads (get_parent b) >>= confirm_ancestors fuel) (confirm_block b)
            fm e
            (λ _ _.
              keeps_bind Holds (confirm_ancestors fuel) (reads (get_parent b))
                (confirm_block b fm).1 e (λ parent _. ih parent (confirm_block b fm).1 e)))
    ])

    confirm_stopped :
        (fuel : ℕ) (b : Block) (fm : ForkManager)
        → is_confirmed_block b.hash fm ≡ true
        → Holds fm
        → Holds (confirm_ancestors (suc fuel) b fm).1
    unfolding confirm_ancestors
    confirm_stopped fuel b fm done e = rw done e

    confirm_none : (b : Block) (fm : ForkManager) → Holds fm → Holds (confirm_ancestors zero b fm).1
    unfolding confirm_ancestors
    confirm_none b fm e = e

    confirm_ancestors-Holds :
        (fuel : ℕ) (b : Block) (fm : ForkManager) → Holds fm → Holds (confirm_ancestors fuel b fm).1
    confirm_ancestors-Holds zero b fm e = confirm_none b fm e
    confirm_ancestors-Holds (suc fuel) b fm e = elim (Bool-cases (is_confirmed_block b.hash fm)) [
      | inl done ↦ confirm_stopped fuel b fm done e
      | inr open_block ↦
          confirm_round fuel b fm (confirm_ancestors-Holds fuel) open_block
            (confirm_block-Holds b fm e)
    ]

    confirm_block_and_ancestors-Holds :
        (fuel : ℕ) (b : Block) (fm : ForkManager)
        → Holds fm
        → Holds (confirm_block_and_ancestors fuel b fm).1
    unfolding confirm_block_and_ancestors
    confirm_block_and_ancestors-Holds fuel b fm e =
        let e1 = confirm_ancestors-Holds fuel b fm e in
        keeps_bind Holds (λ _. modify (update_chain_tip b)) (confirm_ancestors fuel b) fm e1
          (λ _ _. update_chain_tip-Holds b _ e1)

    finish_walk-Holds :
        (fuel : ℕ) (b : Block) (o : Option Block) (fm : ForkManager)
        → Holds fm
        → Holds (finish_walk fuel b o fm).1
    unfolding is_confirmed_block query_parent
    finish_walk-Holds fuel b none fm e = confirm_block_and_ancestors-Holds fuel b fm e
    finish_walk-Holds fuel b (some cur) fm e = e

    add_block_and_ancestors-Holds :
        (fuel : ℕ) (b : Block) (fm : ForkManager)
        → Holds fm
        → Holds (add_block_and_ancestors fuel b fm).1
    unfolding add_block_and_ancestors is_confirmed_block add_block
    add_block_and_ancestors-Holds fuel b fm e =
        keeps_bind Holds (finish_walk fuel b) (reads (find_unknown fuel b)) (add_block b fm) e
          (λ o _. finish_walk-Holds fuel b o (add_block b fm) e)

    take_block-Holds :
        (fuel : ℕ) (checked : Bool × Block) (fm : ForkManager)
        → Holds fm
        → Holds (take_block fuel checked fm).1
    take_block-Holds fuel (false, b) fm e = e
    take_block-Holds fuel (true, b) fm e =
        let e1 = add_block_and_ancestors-Holds fuel b fm e in
        keeps_bind Holds (λ _. pure true) (add_block_and_ancestors fuel b) fm e1 (λ _ _. e1)

    -- A block that is confirmed stays confirmed, whatever bytes arrive as a new block and however
    -- the handler ends.
    pub handle_new_block-confirmed :
        (fuel : ℕ) (message : Bytes) (fm : ForkManager)
        → is_confirmed_block h fm ≡ true
        → is_confirmed_block h (handle_new_block fuel message fm).1 ≡ true
    unfolding handle_new_block
    handle_new_block-confirmed fuel message fm e =
        keeps_bind Holds (λ b. lift (prevalidate_block b.hash b) >>= take_block fuel)
          (lift (Block.deserialize message)) fm e
          (λ b _.
            keeps_bind Holds (take_block fuel) (lift (prevalidate_block b.hash b)) fm e
              (λ checked _. take_block-Holds fuel checked fm e))

  marked_self :
      (b : Block) (fm : ForkManager)
      → Holds b.hash (record fm { confirmed_blocks = b.hash ∷ fm.confirmed_blocks })
  unfolding is_confirmed_block member
  marked_self b fm = ground (arith, ==_refl b.hash)

  -- What confirm_block is given counts as confirmed, even when it raises.
  pub confirm_block-confirmed : (b : Block) (fm : ForkManager) → Holds b.hash (confirm_block b fm).1
  unfolding confirm_block
  confirm_block-confirmed b fm =
      let fm1 = record fm { confirmed_blocks = b.hash ∷ fm.confirmed_blocks } in
      let m = marked_self b fm in
      keeps_bind (Holds b.hash)
        (λ text.
          modify (λ f. record f { block_storage = Storage.save (hex b.hash) text f.block_storage }))
        (lift (Block.serialize b)) fm1 m (λ text _. saved-Holds b.hash b text fm1 m)

  -- The first block of the loop ends up confirmed.
  pub confirm_ancestors-confirmed :
      (fuel : ℕ) (b : Block) (fm : ForkManager) → Holds b.hash (confirm_ancestors (suc fuel) b fm).1
  confirm_ancestors-confirmed fuel b fm = elim (Bool-cases (is_confirmed_block b.hash fm)) [
    | inl done ↦ confirm_stopped b.hash fuel b fm done done
    | inr open_block ↦
        confirm_round b.hash fuel b fm (confirm_ancestors-Holds b.hash fuel) open_block
          (confirm_block-confirmed b fm)
  ]
