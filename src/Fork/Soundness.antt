-- ===== src/Fork/Soundness.antt =====
-- What the handlers of the fork manager keep, whatever arrives and however they end.
use mathlib.Core.Path.{subst}
use blockchain_workshop.Prelude.{
  ℕ, ◌≡◌, refl, sym, inl, inr, Bool, true, false, Option, none, some, ok, Bytes, arith, ◌==◌,
  ==-cases, ==_refl, Bytes_eq, Option-cases, Bool-cases,
}
use blockchain_workshop.Prelude.Int.{pos, ◌+ℤ◌, ltb_ℤ, ℤ_eq}
use blockchain_workshop.Prelude.Dict.{lookup-insert}
use blockchain_workshop.Prelude.Actions.{pure, lift, reads, modify, ◌>>=◌, keeps_bind}
use blockchain_workshop.Crypto.{Crypto, CryptoLaws}
use blockchain_workshop.Types.Block
use blockchain_workshop.Types.Block.{Block}
use blockchain_workshop.Types.Parsed.{IsProper, deserialize-IsProper}
use blockchain_workshop.Fork.{
  ForkManager, Query, add_block, update_chain_tip, prevalidate_block, confirm_ancestors,
  confirm_block_and_ancestors, find_unknown, query_parent, add_block_and_ancestors, finish_walk,
  take_block, handle_new_block, take_parent, read_result, handle_result,
}
use blockchain_workshop.Fork.Confirm.{IsSound, IsSound-pending}
use blockchain_workshop.Fork.Walk.{IsConfirmed, confirm_all}

module _ ⦃c : Crypto⦄ where
  -- The difficulty test leaves a proper block as it is.
  prevalidate_same :
      (b b' : Block) (v : Bool) → IsProper b → prevalidate_block b.hash b ≡ ok (v, b') → b' ≡ b
  unfolding prevalidate_block Block.has_difficulty
  prevalidate_same b b' v p h = ground (arith, ==_refl b.hash, p.hashed)

  pub add_block-IsSound :
      (b : Block) (fm : ForkManager) → IsProper b → IsSound none fm → IsSound none (add_block b fm)
  unfolding add_block
  add_block-IsSound b fm p s = record {
    linked = s.linked;
    confirmed = s.confirmed;
    known = λ h k e. elim (==-cases b.hash h) [
      | inl (same, t) ↦
          let found : b ≡ k = ground (arith, lookup-insert b.hash h b fm.known_blocks) in
          subst (λ x. (x.hash ≡ h) × IsProper x) found (same, p)
      | inr (ne, t) ↦ s.known h k (ground (arith, lookup-insert b.hash h b fm.known_blocks))
    ];
  }

  update_chain_tip-IsSound :
      (b : Block) (fm : ForkManager) → IsSound none fm → IsSound none (update_chain_tip b fm)
  unfolding update_chain_tip
  update_chain_tip-IsSound b fm s = elim (Option-cases fm.highest_block) [
    | inl e ↦ rw e (record { linked = s.linked; confirmed = s.confirmed; known = s.known })
    | inr (top, e) ↦ elim (Bool-cases (ltb_ℤ top.number b.number)) [
      | inl t ↦ rw (e, t) (record { linked = s.linked; confirmed = s.confirmed; known = s.known })
      | inr t ↦ rw (e, t) (record { linked = s.linked; confirmed = s.confirmed; known = s.known })
    ]
  ]

  query_parent-IsSound :
      (b cur : Block) (fm : ForkManager) → IsSound none fm → IsSound none (query_parent b cur fm)
  unfolding query_parent
  query_parent-IsSound b cur fm s = record {
    linked = s.linked;
    confirmed = s.confirmed;
    known = s.known;
  }

  module _ (laws : CryptoLaws c) (fuel : ℕ) where
    -- When the walk finds all ancestors, they are confirmed, and the tip may move.
    pub confirm_walked :
        (b : Block) (fm : ForkManager)
        → IsProper b
        → IsSound none fm
        → find_unknown fuel b fm ≡ ok none
        → IsConfirmed fuel b fm
    confirm_walked b fm p s walked =
        confirm_all laws fm fuel b fm p (IsSound-pending (some b.hash) fm s) refl (λ h e. e) walked

    walked-IsSound :
        (b : Block) (fm : ForkManager)
        → IsProper b
        → IsSound none fm
        → find_unknown fuel b fm ≡ ok none
        → IsSound none (confirm_block_and_ancestors fuel b fm).1
    unfolding confirm_block_and_ancestors
    walked-IsSound b fm p s walked =
        keeps_bind (IsSound none) (λ _. modify (update_chain_tip b)) (confirm_ancestors fuel b) fm
          (confirm_walked b fm p s walked).1
          (λ _ e. update_chain_tip-IsSound b _ (confirm_walked b fm p s walked).1)

    add_walked-IsSound :
        (b : Block) (fm : ForkManager)
        → IsProper b
        → IsSound none fm
        → (o : Option Block) → find_unknown fuel b fm ≡ ok o
        → IsSound none (finish_walk fuel b o fm).1
    add_walked-IsSound b fm p s none e = walked-IsSound b fm p s e
    add_walked-IsSound b fm p s (some cur) e = query_parent-IsSound b cur fm s

    add_block_and_ancestors-IsSound :
        (b : Block) (fm : ForkManager)
        → IsProper b
        → IsSound none fm
        → IsSound none (add_block_and_ancestors fuel b fm).1
    unfolding add_block_and_ancestors
    add_block_and_ancestors-IsSound b fm p s =
        let s' = add_block-IsSound b fm p s in
        keeps_bind (IsSound none) (finish_walk fuel b) (reads (find_unknown fuel b))
          (add_block b fm) s' (λ o e. add_walked-IsSound b (add_block b fm) p s' o e)

    pub accepted :
        (b b' : Block) (v : Bool) (fm : ForkManager)
        → IsProper b
        → prevalidate_block b.hash b ≡ ok (v, b')
        → IsSound none fm
        → IsSound none (take_block fuel (v, b') fm).1
    accepted b b' false fm p e s = s
    accepted b b' true fm p e s =
        keeps_bind (IsSound none) (λ _. pure true) (add_block_and_ancestors fuel b') fm
          (add_block_and_ancestors-IsSound b' fm
            (subst IsProper (sym (prevalidate_same b b' true p e)) p) s)
          (λ _ h.
            add_block_and_ancestors-IsSound b' fm
              (subst IsProper (sym (prevalidate_same b b' true p e)) p) s)

    -- Under the laws of the cryptography, whatever bytes a peer sends as a new block and however
    -- the handler ends: when the block storage is closed under parents, the confirmed blocks are
    -- stored, and the known blocks are proper and filed under their hashes, all this holds
    -- afterwards.
    pub handle_new_block-IsSound :
        (message : Bytes) (fm : ForkManager)
        → IsSound none fm
        → IsSound none (handle_new_block fuel message fm).1
    unfolding handle_new_block
    handle_new_block-IsSound message fm s =
        keeps_bind (IsSound none) (λ b. lift (prevalidate_block b.hash b) >>= take_block fuel)
          (lift (Block.deserialize message)) fm s
          (λ b e.
            keeps_bind (IsSound none) (take_block fuel) (lift (prevalidate_block b.hash b)) fm s
              (λ (v, b') h. accepted b b' v fm (deserialize-IsProper message b e) h s))

    take_parent-IsSound :
        (q : Query) (parent parent' : Block) (v : Bool) (fm : ForkManager)
        → IsProper q.block
        → IsProper parent
        → prevalidate_block parent.hash parent ≡ ok (v, parent')
        → IsSound none fm
        → IsSound none (take_parent fuel q (v, parent') fm).1
    take_parent-IsSound q parent parent' false fm p pp e s = s
    take_parent-IsSound q parent parent' true fm p pp e s =
        let s' =
          add_block-IsSound parent' fm
            (subst IsProper (sym (prevalidate_same parent parent' true pp e)) pp) s in
        let s'' = add_block_and_ancestors-IsSound q.block (add_block parent' fm) p s' in
        keeps_bind (IsSound none) (λ _. pure true) (add_block_and_ancestors fuel q.block)
          (add_block parent' fm) s'' (λ _ h. s'')

    read_result-IsSound :
        (q : Query) (parent : Block) (fm : ForkManager)
        → IsProper q.block
        → IsProper parent
        → IsSound none fm
        → IsSound none (read_result fuel q parent fm).1
    unfolding read_result
    read_result-IsSound q parent fm p pp s =
        elim (Bool-cases (q.cur_block.parent_hash == parent.hash)) [
          | inr t ↦ rw t s
          | inl t ↦ elim (Bool-cases (q.cur_block.number == (parent.number +ℤ pos 1))) [
            | inr u ↦ rw (t, u) s
            | inl u ↦
                rw (t, u)
                  (keeps_bind (IsSound none) (take_parent fuel q)
                    (lift (prevalidate_block parent.hash parent)) fm s
                    (λ (v, b) h. take_parent-IsSound q parent b v fm p pp h s))
          ]
        ]

    -- Under the laws of the cryptography, whatever comes as the answer to a query, or nothing until
    -- its timeout, and however the result handler ends: when the block that the query is about is
    -- proper and the fork manager is sound, it is sound afterwards.
    pub handle_result-IsSound :
        (q : Query) (reply : Option Bytes) (fm : ForkManager)
        → IsProper q.block
        → IsSound none fm
        → IsSound none (handle_result fuel q reply fm).1
    unfolding handle_result
    handle_result-IsSound q none fm p s = s
    handle_result-IsSound q (some data') fm p s =
        keeps_bind (IsSound none) (read_result fuel q) (lift (Block.deserialize data')) fm s
          (λ parent e. read_result-IsSound q parent fm p (deserialize-IsProper data' parent e) s)
