-- ===== src/Fork/Confirm.antt =====
-- The fork manager keeps its block storage closed under parents: the walk of
-- _add_block_and_ancestors looks for a missing parent before anything is confirmed.
use mathlib.Core.Path.{subst}
use blockchain_workshop.Prelude.{
  ℕ, suc, ◌∷◌, ◌≡◌, ◌≢◌, inl, inr, true, false, Option, none, some, ok, err, Error, Bytes, Text,
  arith, IsBytes, ==-cases, ==_refl, Bytes_eq, Option-cases,
}
use blockchain_workshop.Prelude.Int.{pos, int_eq_iff, ℤ_eq}
use blockchain_workshop.Prelude.Dict.{lookup}
use blockchain_workshop.Text.Hex.{hex}
use blockchain_workshop.Storage
use blockchain_workshop.Storage.{load-save, exists-save}
use blockchain_workshop.Crypto.{Crypto, CryptoLaws}
use blockchain_workshop.Types.Block
use blockchain_workshop.Types.Block.{Block}
use blockchain_workshop.Types.Parsed.{IsProper, IsProper-deserialize, deserialize-IsProper}
use blockchain_workshop.Fork.{
  ForkManager, member, is_confirmed_block, get_known_block, get_parent, confirm_block,
  confirm_ancestors,
}
use blockchain_workshop.Fork.Links.{
  IsLinked, Linked, IsLinked-pending, IsLinked-save, exists-save_mono, IsProper-hash,
}

module _ ⦃c : Crypto⦄ where
  -- The storage is closed under parents, all but the pending one; what is confirmed is stored; and
  -- the known blocks are proper and filed under their hashes.
  pub record IsSound (pending : Option Bytes) (fm : ForkManager) : Type 0 where
    pub linked : IsLinked pending fm.block_storage
    pub confirmed :
        (h : Bytes)
        → member h fm.confirmed_blocks ≡ true
        → Storage.exists (hex h) fm.block_storage ≡ true
    pub known :
        (h : Bytes) (b : Block) → lookup h fm.known_blocks ≡ some b → (b.hash ≡ h) × IsProper b

  pub IsSound-pending : (p : Option Bytes) (fm : ForkManager) → IsSound none fm → IsSound p fm
  IsSound-pending p fm s = record {
    linked = IsLinked-pending p fm.block_storage s.linked;
    confirmed = s.confirmed;
    known = s.known;
  }

  pub stored_of_confirmed :
      {p : Option Bytes} (h : Bytes) (fm : ForkManager)
      → IsSound p fm
      → is_confirmed_block h fm ≡ true
      → Storage.exists (hex h) fm.block_storage ≡ true
  unfolding is_confirmed_block
  stored_of_confirmed h fm s e = ground (arith, s.confirmed h)

  pub exists-load-some :
      (h : Text) (st : Storage.Store) {text : Text}
      → Storage.load h st ≡ some text
      → Storage.exists h st ≡ true
  exists-load-some h st e = ground (arith, Storage.exists-load h st)

  -- What is found under a hash has that hash and is proper.
  pub get_parent-IsProper :
      {p : Option Bytes} (b parent : Block) (fm : ForkManager)
      → IsSound p fm
      → IsBytes b.parent_hash
      → get_parent b fm ≡ ok parent
      → (parent.hash ≡ b.parent_hash) × IsProper parent
  unfolding get_parent get_known_block
  get_parent-IsProper b parent fm s hb e =
      elim (Option-cases (lookup b.parent_hash fm.known_blocks)) [
        | inr (k, known) ↦
            let same : k ≡ parent = ground arith in
            let found = s.known b.parent_hash k known in rw same at found
        | inl unknown ↦ elim (Option-cases (Storage.load (hex b.parent_hash) fm.block_storage)) [
          | inl missing ↦ absurd (ground arith)
          | inr (text, loaded) ↦
              let st =
                s.linked b.parent_hash hb
                  (exists-load-some (hex b.parent_hash) fm.block_storage loaded) in
              let same_text : st.text ≡ text = cc (st.loaded, loaded) in
              let read : Block.deserialize text ≡ ok st.block = rw same_text at st.read in
              let same : st.block ≡ parent = ground arith in
              subst (λ x. (x.hash ≡ b.parent_hash) × IsProper x) same
                (st.filed, deserialize-IsProper text st.block read)
        ]
      ]

  -- The manager behind a successful confirm_block.
  unfoldable pub stored : Block → Bytes → ForkManager → ForkManager
  stored b text fm = record fm {
    confirmed_blocks = b.hash ∷ fm.confirmed_blocks;
    block_storage = Storage.save (hex b.hash) text fm.block_storage;
  }

  confirm_block_lem :
      (b : Block) (text : Bytes) (fm : ForkManager)
      → Block.serialize b ≡ ok text
      → confirm_block b fm ≡ (ok tt, stored b text fm)
  unfolding confirm_block stored
  confirm_block_lem b text fm h = ground arith

  pub confirm_stop :
      (fuel : ℕ) (b : Block) (fm : ForkManager)
      → is_confirmed_block b.hash fm ≡ true
      → confirm_ancestors (suc fuel) b fm ≡ (ok tt, fm)
  unfolding confirm_ancestors
  confirm_stop fuel b fm h = ground arith

  module _ (fuel : ℕ) (b : Block) (text : Bytes) (fm : ForkManager)
      (open_block : is_confirmed_block b.hash fm ≡ false)
      (written : Block.serialize b ≡ ok text) where
    pub confirm_last :
        b.number ≡ pos 0 → confirm_ancestors (suc fuel) b fm ≡ (ok tt, stored b text fm)
    unfolding confirm_ancestors
    confirm_last h = ground (arith, confirm_block_lem b text fm, int_eq_iff b.number (pos 0))

    pub confirm_next :
        b.number ≢ pos 0
        → (parent : Block) → get_parent b (stored b text fm) ≡ ok parent
        → confirm_ancestors (suc fuel) b fm ≡ confirm_ancestors fuel parent (stored b text fm)
    unfolding confirm_ancestors
    confirm_next h parent e =
        ground (arith, confirm_block_lem b text fm, int_eq_iff b.number (pos 0))

    confirm_orphan :
        b.number ≢ pos 0
        → {x : Error} → get_parent b (stored b text fm) ≡ err x
        → confirm_ancestors (suc fuel) b fm ≡ (err x, stored b text fm)
    unfolding confirm_ancestors
    confirm_orphan h e = ground (arith, confirm_block_lem b text fm, int_eq_iff b.number (pos 0))

  read_written :
      (b : Block) (text : Bytes)
      → IsProper b
      → Block.serialize b ≡ ok text
      → Block.deserialize text ≡ ok b
  read_written b text p h =
      let (t, ht, read, _) = IsProper-deserialize b p in
      let same : t ≡ text = cc (ht, h) in rw same at read

  stored_of_member :
      {p : Option Bytes} (b : Block) (text : Bytes) (fm : ForkManager) (h : Bytes)
      → IsSound p fm
      → member h (b.hash ∷ fm.confirmed_blocks) ≡ true
      → Storage.exists (hex h) (Storage.save (hex b.hash) text fm.block_storage) ≡ true
  unfolding member
  stored_of_member b text fm h s m = elim (==-cases b.hash h) [
    | inl (same, _) ↦ rw (same, exists-save, ==_refl (hex h))
    | inr (_, ne) ↦
        exists-save_mono (hex b.hash) (hex h) text fm.block_storage (s.confirmed h (ground arith))
  ]

  pub stored-IsSound :
      (laws : CryptoLaws c) (b : Block) (text : Bytes) (p : Option Bytes) (fm : ForkManager)
      → IsProper b
      → Block.serialize b ≡ ok text
      → Linked p (Storage.save (hex b.hash) text fm.block_storage) b
      → IsSound (some b.hash) fm
      → IsSound p (stored b text fm)
  unfolding stored
  stored-IsSound laws b text p fm proper written own s = record {
    linked =
        IsLinked-save b text p fm.block_storage (IsProper-hash laws b proper)
          (read_written b text proper written) own s.linked;
    confirmed = λ h m. stored_of_member b text fm h s m;
    known = s.known;
  }
