-- ===== src/Fork/Arrival.antt =====
-- The parent that was asked for arrives.
use blockchain_workshop.Prelude.{
  ℕ, ◌+◌, ◌≡◌, refl, sym, ap, ◌∙◌, inl, inr, true, false, none, some, ok, ◌∷◌, Bytes, arith,
  ==_refl, ==-cases, ◌==◌, Bytes_eq, codes,
}
use blockchain_workshop.Prelude.Int.{pos, ◌+ℤ◌, ℤ_eq}
use blockchain_workshop.Prelude.Dict.{contains, insert, lookup-insert}
use blockchain_workshop.Prelude.Actions.{pure, ◌>>◌}
use blockchain_workshop.Text.Hex.{hex}
use blockchain_workshop.Crypto.{Crypto, CryptoLaws}
use blockchain_workshop.Types.Block
use blockchain_workshop.Types.Block.{Block, starts_with_zeros}
use blockchain_workshop.Types.Parsed.{IsProper, deserialize-IsProper}
use blockchain_workshop.Chain.Blocks.{difficulty}
use blockchain_workshop.Fork.{
  ForkManager, Query, is_confirmed_block, is_known_block, add_block, update_chain_tip,
  confirm_ancestors, find_unknown, query_parent, add_block_and_ancestors, handle_new_block,
  handle_result, read_result,
}
use blockchain_workshop.Fork.Confirm.{IsSound}
use blockchain_workshop.Fork.Memory.{update_chain_tip-Holds}
use blockchain_workshop.Fork.Soundness.{confirm_walked, add_block-IsSound}
use blockchain_workshop.Fork.Acceptance.{
  IsTip, prevalidate_block_lem, add_walked, then_true, update_chain_tip-IsTip, run_confirm,
  confirmed_walked, handle_new_block_asks,
}
use blockchain_workshop.Fork.Growth.{Extends, differs, walk_joined, stops_at}

module _ ⦃c : Crypto⦄ where
  -- The fork manager that asked, and the one that has the answer.
  abbrev asked : Block → Block → ForkManager → ForkManager
  asked b cur fm = query_parent b cur (add_block b fm)

  added_known : (b : Block) (fm : ForkManager) → is_known_block b.hash (add_block b fm) ≡ true
  unfolding add_block is_known_block contains
  added_known b fm =
      rw (is_known_block, contains, lookup-insert b.hash b.hash b fm.known_blocks, ==_refl b.hash)
        refl

  arrived-Extends :
      (b cur parent : Block) (fm : ForkManager)
      → is_known_block parent.hash (add_block b fm) ≡ false
      → Extends parent (add_block b fm) (add_block b (add_block parent (asked b cur fm)))
  unfolding add_block query_parent
  arrived-Extends b cur parent fm unknown = record {
    unknown = unknown;
    lookups = λ h. elim (==-cases b.hash h) [
      | inl (same, t) ↦
          let u : (parent.hash == h) ≡ false =
            differs parent.hash h (add_block b fm) unknown
              (ap (λ j. is_known_block j (add_block b fm)) (sym same) ∙ added_known b fm) in
          ground (
            arith,
            lookup-insert b.hash h b (insert parent.hash parent (insert b.hash b fm.known_blocks)),
            t,
            u,
            lookup-insert b.hash h b fm.known_blocks,
          )
      | inr (_, t) ↦ ground (
        arith,
        lookup-insert b.hash h b (insert parent.hash parent (insert b.hash b fm.known_blocks)),
        t,
        lookup-insert parent.hash h parent (insert b.hash b fm.known_blocks),
      )
    ];
    hashes = refl;
    storage = refl;
  }

  -- The query for the parent of `cur`.
  abbrev pub question : Block → Block → Query
  question b cur = record {
    kind = codes "block";
    payload = cur.parent_hash;
    block = b;
    cur_block = cur;
  }

  -- A result that is the parent that was asked for, and passes its checks.
  handle_parent :
      (fuel : ℕ) (b cur parent : Block) (data' : Bytes) (fm : ForkManager)
      → Block.deserialize data' ≡ ok parent
      → starts_with_zeros difficulty (hex parent.hash) ≡ true
      → parent.hash ≡ cur.parent_hash
      → cur.number ≡ (parent.number +ℤ pos 1)
      → handle_result fuel (question b cur) (some data') fm
        ≡ (add_block_and_ancestors fuel b >> pure true) (add_block parent fm)
  unfolding handle_result read_result
  handle_parent fuel b cur parent data' fm read hard filed numbered =
      let named = (Bytes_eq.test_iff cur.parent_hash parent.hash).1 (sym filed) in
      let next = (ℤ_eq.test_iff cur.number (parent.number +ℤ pos 1)).1 numbered in
      let proper = deserialize-IsProper data' parent read in
      rw (read, read_result, named, next, prevalidate_block_lem parent proper, hard) refl

  asked-IsSound :
      (b cur : Block) (fm : ForkManager)
      → IsProper b
      → IsSound none fm
      → IsSound none (asked b cur fm)
  unfolding query_parent
  asked-IsSound b cur fm proper s =
      let s1 = add_block-IsSound b fm proper s in
      record { linked = s1.linked; confirmed = s1.confirmed; known = s1.known }

  -- Both blocks stand among the known ones, and the walk from the first one is complete.
  module _ (laws : CryptoLaws c) (fuel k : ℕ) (b cur parent : Block) (fm : ForkManager) where
    abbrev joined : ForkManager
    joined = add_block b (add_block parent (asked b cur fm))

    joined_walk :
        parent.hash ≡ cur.parent_hash
        → find_unknown fuel b (add_block b fm) ≡ ok (some cur)
        → find_unknown k parent (add_block b fm) ≡ ok none
        → find_unknown (fuel + k) b joined ≡ ok none
    joined_walk filed missing walked =
        let unknown : is_known_block parent.hash (add_block b fm) ≡ false =
          ap (λ h. is_known_block h (add_block b fm)) filed
          ∙ stops_at fuel b cur (add_block b fm) missing in
        walk_joined parent (add_block b fm) joined (arrived-Extends b cur parent fm unknown) fuel k
          (fuel + k) b cur refl filed missing walked

    runs_joined :
        IsProper b
        → IsProper parent
        → IsSound none fm
        → find_unknown (fuel + k) b joined ≡ ok none
        → (add_block_and_ancestors (fuel + k) b >> pure true) (add_block parent (asked b cur fm))
          ≡ (ok true, update_chain_tip b (confirm_ancestors (fuel + k) b joined).1)
    runs_joined pb pp s walked =
        let s1 = add_block-IsSound parent (asked b cur fm) pp (asked-IsSound b cur fm pb s) in
        let (done, _) =
          confirm_walked laws (fuel + k) b joined pb
            (add_block-IsSound b (add_block parent (asked b cur fm)) pb s1) walked in
        then_true (add_block_and_ancestors (fuel + k) b) (add_block parent (asked b cur fm)) _ (
          add_walked (fuel + k) b none (add_block parent (asked b cur fm)) walked
          ∙ run_confirm (fuel + k) b joined done)

    -- A block comes whose ancestors are not all known, and then the answer to the question for the
    -- one that is missing. Under the laws of the cryptography, when the fork manager is sound, a
    -- message reads as a block with the difficulty, the walk from it ends at a block whose parent
    -- is missing, and the result of the search reads as a block that has the hash and the number of
    -- that parent and the difficulty, and whose own ancestors are known: handling the block puts
    -- one question to the network, and handling the result of that question, with the fuel of both
    -- walks, does not raise, ends the search, and leaves the block confirmed and the chain tip not
    -- below it.
    pub missing_parent_arrives :
        (message data' : Bytes)
        → Block.deserialize message ≡ ok b
        → starts_with_zeros difficulty (hex b.hash) ≡ true
        → IsSound none fm
        → find_unknown fuel b (add_block b fm) ≡ ok (some cur)
        → Block.deserialize data' ≡ ok parent
        → starts_with_zeros difficulty (hex parent.hash) ≡ true
        → parent.hash ≡ cur.parent_hash
        → cur.number ≡ (parent.number +ℤ pos 1)
        → find_unknown k parent (add_block b fm) ≡ ok none
        → ((handle_new_block fuel message fm).1.queries ≡ question b cur ∷ fm.queries)
          × (fm' : ForkManager) × (handle_result
                (fuel + k)
                (question b cur)
                (some data')
                (handle_new_block fuel message fm).1
              ≡ (ok true, fm'))
          × (is_confirmed_block b.hash fm' ≡ true)
          × IsTip b fm'
    unfolding query_parent add_block
    missing_parent_arrives message data' read hard s missing read' hard' filed numbered walked =
        let first = handle_new_block_asks fuel message b cur fm read hard missing in
        let pb = deserialize-IsProper message b read in
        let pp = deserialize-IsProper data' parent read' in
        let whole = joined_walk filed missing walked in
        let fm' = (confirm_ancestors (fuel + k) b joined).1 in
        (
          ap (λ r. r.1.queries) first,
          update_chain_tip b fm',
          ap (λ r. handle_result (fuel + k) (question b cur) (some data') r.1) first
              ∙ handle_parent (fuel + k) b cur parent data' (asked b cur fm) read' hard' filed
                  numbered
              ∙ runs_joined pb pp s whole,
          update_chain_tip-Holds b.hash b fm' (confirmed_walked (fuel + k) b joined whole),
          update_chain_tip-IsTip b fm',
        )
