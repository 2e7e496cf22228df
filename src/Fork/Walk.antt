-- ===== src/Fork/Walk.antt =====
-- When the walk of _add_block_and_ancestors finds every ancestor, the second loop confirms them all
-- and does not raise.
use mathlib.Core.Path.{subst}
use blockchain_workshop.Prelude.{
  ℕ, zero, suc, ◌≡◌, ◌≢◌, refl, sym, ap, ◌∙◌, ◌⊎◌, inl, inr, true, false, Option, none, some, ok,
  Bytes, Text, arith, IsBytes, ==-cases, Bytes_eq, Result-cases, Option-cases, Bool-cases,
}
use blockchain_workshop.Prelude.Int.{pos, int_eq_iff, ℤ_eq}
use blockchain_workshop.Prelude.Dict.{lookup}
use blockchain_workshop.Text.Hex.{hex}
use blockchain_workshop.Storage
use blockchain_workshop.Crypto.{Crypto, CryptoLaws}
use blockchain_workshop.Types.Block
use blockchain_workshop.Types.Block.{Block}
use blockchain_workshop.Types.Parsed.{IsProper, IsProper-deserialize}
use blockchain_workshop.Fork.{
  ForkManager, member, is_confirmed_block, get_known_block, get_parent, confirm_ancestors,
  find_unknown,
}
use blockchain_workshop.Fork.Links.{IsLinked-arrived, exists-save_mono}
use blockchain_workshop.Fork.Confirm.{
  IsSound, stored, stored-IsSound, stored_of_confirmed, get_parent-IsProper, exists-load-some,
  confirm_stop, confirm_last, confirm_next,
}

module _ ⦃c : Crypto⦄ where
  walk_step :
      (fuel : ℕ) (b : Block) (fm : ForkManager)
      → find_unknown (suc fuel) b fm ≡ ok none
      → b.number ≢ pos 0
      → is_confirmed_block b.hash fm ≡ false
      → (parent : Block) × (get_parent b fm ≡ ok parent) × (find_unknown fuel parent fm ≡ ok none)
  unfolding find_unknown
  walk_step fuel b fm h ne open_block = elim (Result-cases (get_parent b fm)) [
    | inl (parent, e) ↦ (parent, e, ground (arith, int_eq_iff b.number (pos 0)))
    | inr (x, e) ↦ absurd (ground (arith, int_eq_iff b.number (pos 0)))
  ]

  -- Where a parent comes from: the known blocks, or the storage.
  parent_source :
      (b parent : Block) (fm : ForkManager)
      → get_parent b fm ≡ ok parent
      → (lookup b.parent_hash fm.known_blocks ≡ some parent)
        ⊎ ((lookup b.parent_hash fm.known_blocks ≡ none)
            × (is_confirmed_block b.parent_hash fm ≡ true))
  unfolding get_parent get_known_block is_confirmed_block
  parent_source b parent fm e = elim (Option-cases (lookup b.parent_hash fm.known_blocks)) [
    | inr (k, known) ↦ inl (ground arith)
    | inl unknown ↦ elim (Option-cases (Storage.load (hex b.parent_hash) fm.block_storage)) [
      | inl missing ↦ absurd (ground arith)
      | inr (text, loaded) ↦
          inr
            (unknown, ground (arith, exists-load-some (hex b.parent_hash) fm.block_storage loaded))
    ]
  ]

  known_parent :
      (b parent : Block) (fm : ForkManager)
      → lookup b.parent_hash fm.known_blocks ≡ some parent
      → get_parent b fm ≡ ok parent
  unfolding get_parent get_known_block
  known_parent b parent fm e = ground arith

  stored_parent :
      (b : Block) {p : Option Bytes} (fm : ForkManager)
      → IsSound p fm
      → IsBytes b.parent_hash
      → lookup b.parent_hash fm.known_blocks ≡ none
      → Storage.exists (hex b.parent_hash) fm.block_storage ≡ true
      → (parent : Block) × (get_parent b fm ≡ ok parent) × (parent.hash ≡ b.parent_hash)
  unfolding get_parent get_known_block
  stored_parent b fm s hb unknown there =
      let st = s.linked b.parent_hash hb there in
      (st.block, ground (arith, st.loaded, st.read), st.filed)

  confirmed_of_stored :
      (h : Bytes) (fm : ForkManager)
      → Storage.exists (hex h) fm.block_storage ≡ true
      → is_confirmed_block h fm ≡ true
  unfolding is_confirmed_block
  confirmed_of_stored h fm e = ground arith

  confirmed-stored :
      (b : Block) (text : Bytes) (fm : ForkManager) (h : Bytes)
      → is_confirmed_block h fm ≡ true
      → is_confirmed_block h (stored b text fm) ≡ true
  unfolding is_confirmed_block stored member
  confirmed-stored b text fm h e =
      ground (arith, exists-save_mono (hex b.hash) (hex h) text fm.block_storage)

  known-stored :
      (b : Block) (text : Bytes) (fm : ForkManager)
      → (stored b text fm).known_blocks ≡ fm.known_blocks
  unfolding stored
  known-stored b text fm = refl

  exists-stored :
      (b : Block) (text : Bytes) (fm : ForkManager) (h : Text)
      → Storage.exists h fm.block_storage ≡ true
      → Storage.exists h (stored b text fm).block_storage ≡ true
  unfolding stored
  exists-stored b text fm h e = exists-save_mono (hex b.hash) h text fm.block_storage e

  IsSound-arrived :
      (q : Bytes) (fm : ForkManager)
      → Storage.exists (hex q) fm.block_storage ≡ true
      → IsSound (some q) fm
      → IsSound none fm
  IsSound-arrived q fm here s = record {
    linked = IsLinked-arrived q fm.block_storage here s.linked;
    confirmed = s.confirmed;
    known = s.known;
  }

  -- Confirmed, with all its ancestors.
  abbrev pub IsConfirmed : ℕ → Block → ForkManager → Type 0
  IsConfirmed fuel b fm =
      ((confirm_ancestors fuel b fm).0 ≡ ok tt) × IsSound none (confirm_ancestors fuel b fm).1

  stops :
      (fuel : ℕ) (b : Block) (fm : ForkManager)
      → is_confirmed_block b.hash fm ≡ true
      → IsSound (some b.hash) fm
      → IsConfirmed (suc fuel) b fm
  stops fuel b fm done s =
      rw (confirm_stop fuel b fm done)
        (refl, IsSound-arrived b.hash fm (stored_of_confirmed b.hash fm s done) s)

  -- The walk was made in `fm`; by now the loop has gone on to `fm'`.
  module _ (laws : CryptoLaws c) (fm : ForkManager) where
    abbrev pub Confirms : ℕ → Type 0
    Confirms fuel =
        (b : Block) (fm' : ForkManager)
        → IsProper b
        → IsSound (some b.hash) fm'
        → fm'.known_blocks ≡ fm.known_blocks
        → ((h : Bytes) → is_confirmed_block h fm ≡ true → is_confirmed_block h fm' ≡ true)
        → find_unknown fuel b fm ≡ ok none
        → IsConfirmed fuel b fm'

    Confirms-zero : Confirms zero
    unfolding find_unknown
    Confirms-zero b fm' proper s same mono walked = cc walked

    not_before :
        (b : Block) (fm' : ForkManager)
        → ((h : Bytes) → is_confirmed_block h fm ≡ true → is_confirmed_block h fm' ≡ true)
        → is_confirmed_block b.hash fm' ≡ false
        → is_confirmed_block b.hash fm ≡ false
    not_before b fm' mono e = ground (arith, mono b.hash)

    -- A block other than block 0 is stored, and its parent is next.
    module _ (fuel : ℕ) (ih : Confirms fuel) (b : Block) (fm' : ForkManager) (proper : IsProper b)
        (s : IsSound (some b.hash) fm') (same : fm'.known_blocks ≡ fm.known_blocks)
        (mono : (h : Bytes) → is_confirmed_block h fm ≡ true → is_confirmed_block h fm' ≡ true)
        (parent : Block) (found : get_parent b fm ≡ ok parent)
        (walked : find_unknown fuel parent fm ≡ ok none) (text : Text)
        (written : Block.serialize b ≡ ok text) where
      behind : IsSound (some b.parent_hash) (stored b text fm')
      behind = stored-IsSound laws b text (some b.parent_hash) fm' proper written (inr (inr refl)) s

      -- The parent is read from the known blocks, as in the walk.
      goes_on :
          lookup b.parent_hash fm.known_blocks ≡ some parent
          → (get_parent b (stored b text fm') ≡ ok parent)
            × IsConfirmed fuel parent (stored b text fm')
      goes_on known =
          let fm1 = stored b text fm' in
          let found1 : get_parent b fm1 ≡ ok parent =
            known_parent b parent fm1
              (ap (lookup b.parent_hash) (known-stored b text fm' ∙ same) ∙ known) in
          let (filed, parent_proper) =
            get_parent-IsProper b parent fm1 behind proper.parent_bytes found1 in
          let sound : IsSound (some parent.hash) fm1 =
            subst (λ h. IsSound (some h) fm1) (sym filed) behind in
          (
            found1,
            ih parent fm1 parent_proper sound (known-stored b text fm' ∙ same)
                (λ h e. confirmed-stored b text fm' h (mono h e)) walked,
          )

      -- The parent is in the storage, and so it is confirmed already.
      ends :
          (f : ℕ)
          → lookup b.parent_hash fm.known_blocks ≡ none
          → is_confirmed_block b.parent_hash fm ≡ true
          → (q : Block) × (get_parent b (stored b text fm') ≡ ok q)
            × IsConfirmed (suc f) q (stored b text fm')
      ends f unknown confirmed =
          let fm1 = stored b text fm' in
          let there : Storage.exists (hex b.parent_hash) fm1.block_storage ≡ true =
            exists-stored b text fm' (hex b.parent_hash)
              (stored_of_confirmed b.parent_hash fm' s (mono b.parent_hash confirmed)) in
          let (q, found1, filed) =
            stored_parent b fm1 behind proper.parent_bytes
              (ap (lookup b.parent_hash) (known-stored b text fm' ∙ same) ∙ unknown) there in
          let sound : IsSound (some q.hash) fm1 =
            subst (λ h. IsSound (some h) fm1) (sym filed) behind in
          let done : is_confirmed_block q.hash fm1 ≡ true =
            subst (λ h. is_confirmed_block h fm1 ≡ true) (sym filed)
              (confirmed_of_stored b.parent_hash fm1 there) in
          (q, found1, stops f q fm1 done sound)

    positive : (fuel : ℕ) (b : Block) → find_unknown fuel b fm ≡ ok none → (f : ℕ) × (fuel ≡ suc f)
    unfolding find_unknown
    positive zero b h = cc
    positive (suc f) b h = (f, refl)

    -- One more round of the loop, at a block that is not confirmed yet.
    round :
        (fuel : ℕ) (b : Block) (fm' : ForkManager) (text : Text)
        → Confirms fuel
        → IsProper b
        → IsSound (some b.hash) fm'
        → fm'.known_blocks ≡ fm.known_blocks
        → ((h : Bytes) → is_confirmed_block h fm ≡ true → is_confirmed_block h fm' ≡ true)
        → find_unknown (suc fuel) b fm ≡ ok none
        → is_confirmed_block b.hash fm' ≡ false
        → Block.serialize b ≡ ok text
        → b.number ≢ pos 0
        → IsConfirmed (suc fuel) b fm'
    round fuel b fm' text ih proper s same mono walked open_block written ne =
        let (parent, found, walked') =
          walk_step fuel b fm walked ne (not_before b fm' mono open_block) in
        elim (parent_source b parent fm found) [
          | inl known ↦
              let (found1, rest) =
                goes_on fuel ih b fm' proper s same mono parent found walked' text written known in
              rw (confirm_next fuel b text fm' open_block written ne parent found1) rest
          | inr (unknown, confirmed) ↦
              let (f, e) = positive fuel parent walked' in
              let (q, found1, rest) =
                ends fuel ih b fm' proper s same mono parent found walked' text written f unknown
                  confirmed in
              rw (confirm_next fuel b text fm' open_block written ne q found1)
                (subst (λ n. IsConfirmed n q (stored b text fm')) (sym e) rest)
        ]

    Confirms-suc : (fuel : ℕ) → Confirms fuel → Confirms (suc fuel)
    Confirms-suc fuel ih b fm' proper s same mono walked =
        let (text, written, read, filed) = IsProper-deserialize b proper in
        elim (Bool-cases (is_confirmed_block b.hash fm')) [
          | inl done ↦ stops fuel b fm' done s
          | inr open_block ↦ elim (==-cases b.number (pos 0)) [
            | inl (z, _) ↦
                rw (confirm_last fuel b text fm' open_block written z)
                  (refl, stored-IsSound laws b text none fm' proper written (inl z) s)
            | inr (ne, _) ↦ round fuel b fm' text ih proper s same mono walked open_block written ne
          ]
        ]

    pub confirm_all : (fuel : ℕ) → Confirms fuel
    confirm_all zero = Confirms-zero
    confirm_all (suc fuel) = Confirms-suc fuel (confirm_all fuel)
