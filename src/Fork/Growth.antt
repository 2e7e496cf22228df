-- ===== src/Fork/Growth.antt =====
-- The walk of _add_block_and_ancestors when one more block has become known.
use blockchain_workshop.Prelude.{
  ℕ, zero, suc, ◌+◌, ◌≡◌, ◌⊎◌, refl, sym, ap, ◌∙◌, inl, inr, true, false, Option, none, some, ok,
  Bytes, Result-cases, arith, ==_refl, ==-cases, ◌==◌, if◌then◌else◌, Bytes_eq, Option-cases,
  Bool-cases,
}
use blockchain_workshop.Prelude.Int.{pos, ℤ_eq}
use blockchain_workshop.Prelude.Dict.{lookup, contains}
use blockchain_workshop.Crypto.{Crypto}
use blockchain_workshop.Types.Block.{Block}
use blockchain_workshop.Fork.{
  ForkManager, is_confirmed_block, is_known_block, get_known_block, get_parent, find_unknown,
}

-- One more known block, whose hash was not known before.
pub record Extends (parent : Block) (fm fm' : ForkManager) : Type 0 where
  pub unknown : is_known_block parent.hash fm ≡ false
  pub lookups :
      (h : Bytes)
      → lookup h fm'.known_blocks
        ≡ (if parent.hash == h then some parent else lookup h fm.known_blocks)
  pub hashes : fm'.confirmed_blocks ≡ fm.confirmed_blocks
  pub storage : fm'.block_storage ≡ fm.block_storage

module _ ⦃c : Crypto⦄ where
  -- A step of the walk that goes on.
  record Walks (b : Block) (fm : ForkManager) : Type 0 where
    nonzero : (b.number == pos 0) ≡ false
    open_block : is_confirmed_block b.hash fm ≡ false
    known : is_known_block b.parent_hash fm ≡ true

  record Stops (b : Block) (fm : ForkManager) : Type 0 where
    nonzero : (b.number == pos 0) ≡ false
    open_block : is_confirmed_block b.hash fm ≡ false
    missing : is_known_block b.parent_hash fm ≡ false

  -- What one step of the walk finds.
  walk-cases :
      (fuel : ℕ) (b : Block) (fm : ForkManager)
      → (((b.number == pos 0) ≡ true) ⊎ (is_confirmed_block b.hash fm ≡ true))
        ⊎ ((Stops b fm × (find_unknown (suc fuel) b fm ≡ ok (some b))) ⊎ Walks b fm)
  unfolding find_unknown
  walk-cases fuel b fm = elim (Bool-cases (b.number == pos 0)) [
    | inl z ↦ inl (inl z)
    | inr z ↦ elim (Bool-cases (is_confirmed_block b.hash fm)) [
      | inl y ↦ inl (inr y)
      | inr y ↦ elim (Bool-cases (is_known_block b.parent_hash fm)) [
        | inl k ↦ inr (inr (record { nonzero = z; open_block = y; known = k }))
        | inr k ↦ inr (
            inl (
              record { nonzero = z; open_block = y; missing = k },
              rw (find_unknown, z, y, k) refl,
            ))
      ]
    ]
  ]

  walk_goes :
      (fuel : ℕ) (b p : Block) (fm : ForkManager)
      → Walks b fm
      → get_parent b fm ≡ ok p
      → find_unknown (suc fuel) b fm ≡ find_unknown fuel p fm
  unfolding find_unknown
  walk_goes fuel b p fm w e = rw (w.nonzero, w.open_block, w.known, e) refl

  -- A step that goes on does so from the parent.
  walk_on :
      (fuel : ℕ) (b : Block) (fm : ForkManager) {o : Option Block}
      → Walks b fm
      → find_unknown (suc fuel) b fm ≡ ok o
      → (p : Block) × (get_parent b fm ≡ ok p) × (find_unknown fuel p fm ≡ ok o)
  unfolding find_unknown
  walk_on fuel b fm w h = elim (Result-cases (get_parent b fm)) [
    | inl (p, e) ↦ (p, e, sym (walk_goes fuel b p fm w e) ∙ h)
    | inr (x, e) ↦ absurd (ground (arith, w.nonzero, w.open_block, w.known))
  ]

  pub differs :
      (h j : Bytes) (fm : ForkManager)
      → is_known_block h fm ≡ false
      → is_known_block j fm ≡ true
      → (h == j) ≡ false
  differs h j fm unknown known = elim (==-cases h j) [
    | inl (same, _) ↦ absurd (cc (unknown, ap (λ k. is_known_block k fm) same, known))
    | inr (_, t) ↦ t
  ]

  module _ (parent : Block) (fm fm' : ForkManager) (x : Extends parent fm fm') where
    same_confirmed : (h : Bytes) → is_confirmed_block h fm' ≡ is_confirmed_block h fm
    unfolding is_confirmed_block
    same_confirmed h = rw (x.hashes, x.storage) refl

    same_lookup :
        (h : Bytes)
        → is_known_block h fm ≡ true
        → lookup h fm'.known_blocks ≡ lookup h fm.known_blocks
    same_lookup h known = x.lookups h ∙ rw (differs parent.hash h fm x.unknown known) refl

    same_known : (h : Bytes) → is_known_block h fm ≡ true → is_known_block h fm' ≡ true
    unfolding is_known_block contains
    same_known h known = rw (is_known_block, contains, same_lookup h known, same_confirmed h) known

    same_parent :
        (b : Block) → is_known_block b.parent_hash fm ≡ true → get_parent b fm' ≡ get_parent b fm
    unfolding get_parent get_known_block
    same_parent b known = elim (Option-cases (lookup b.parent_hash fm.known_blocks)) [
      | inl e ↦ rw (get_parent, get_known_block, same_lookup b.parent_hash known, e, x.storage) refl
      | inr (k, e) ↦ rw (get_parent, get_known_block, same_lookup b.parent_hash known, e) refl
    ]

    extended-Walks : (b : Block) → Walks b fm → Walks b fm'
    extended-Walks b w = record {
      nonzero = w.nonzero;
      open_block = same_confirmed b.hash ∙ w.open_block;
      known = same_known b.parent_hash w.known;
    }

    new_known : is_known_block parent.hash fm' ≡ true
    unfolding is_known_block contains
    new_known = rw (is_known_block, contains, x.lookups parent.hash, ==_refl parent.hash) refl

    new_parent : (b : Block) → parent.hash ≡ b.parent_hash → get_parent b fm' ≡ ok parent
    unfolding get_parent get_known_block
    new_parent b e =
        rw (get_parent, get_known_block, x.lookups b.parent_hash, sym e, ==_refl parent.hash) refl

    joined-Walks : (b : Block) → Stops b fm → parent.hash ≡ b.parent_hash → Walks b fm'
    joined-Walks b stop e = record {
      nonzero = stop.nonzero;
      open_block = same_confirmed b.hash ∙ stop.open_block;
      known = ap (λ h. is_known_block h fm') (sym e) ∙ new_known;
    }

    -- A walk that found all ancestors still does, with more fuel too.
    walk_extended :
        (fuel k total : ℕ) (b : Block)
        → total ≡ fuel + k
        → find_unknown fuel b fm ≡ ok none
        → find_unknown total b fm' ≡ ok none
    unfolding find_unknown
    walk_extended zero k total b t h = absurd (cc h)
    walk_extended (suc fuel) k zero b t h = absurd (omega arith)
    walk_extended (suc fuel) k (suc total) b t h = elim (walk-cases fuel b fm) [
      | inl (inl e) ↦ rw (find_unknown, e) refl
      | inl (inr e) ↦ elim (Bool-cases (b.number == pos 0)) [
        | inl z ↦ rw (find_unknown, z) refl
        | inr z ↦ rw (find_unknown, z, same_confirmed b.hash, e) refl
      ]
      | inr (inl (e, run)) ↦ absurd (cc (run, h))
      | inr (inr w) ↦
          let (p, found, run) = walk_on fuel b fm w h in
          walk_goes total b p fm' (extended-Walks b w) (same_parent b w.known ∙ found)
          ∙ walk_extended fuel k total p (omega arith) run
    ]

    -- A walk that ended where this parent was missing goes on with it.
    pub walk_joined :
        (fuel k total : ℕ) (b cur : Block)
        → total ≡ fuel + k
        → parent.hash ≡ cur.parent_hash
        → find_unknown fuel b fm ≡ ok (some cur)
        → find_unknown k parent fm ≡ ok none
        → find_unknown total b fm' ≡ ok none
    unfolding find_unknown
    walk_joined zero k total b cur t e h walked = absurd (cc h)
    walk_joined (suc fuel) k zero b cur t e h walked = absurd (omega arith)
    walk_joined (suc fuel) k (suc total) b cur t e h walked = elim (walk-cases fuel b fm) [
      | inl (inl z) ↦ absurd (ground (arith, h, z))
      | inl (inr y) ↦ absurd (ground (arith, h, y))
      | inr (inl (stop, run)) ↦
          let same : b ≡ cur = cc (run, h) in
          let filed : parent.hash ≡ b.parent_hash = e ∙ ap (λ z. z.parent_hash) (sym same) in
          walk_goes total b parent fm' (joined-Walks b stop filed) (new_parent b filed)
          ∙ walk_extended k fuel total parent (omega arith) walked
      | inr (inr w) ↦
          let (p, found, run) = walk_on fuel b fm w h in
          walk_goes total b p fm' (extended-Walks b w) (same_parent b w.known ∙ found)
          ∙ walk_joined fuel k total p cur (omega arith) e run walked
    ]

  -- The block whose parent is missing is one whose parent is not known.
  pub stops_at :
      (fuel : ℕ) (b cur : Block) (fm : ForkManager)
      → find_unknown fuel b fm ≡ ok (some cur)
      → is_known_block cur.parent_hash fm ≡ false
  unfolding find_unknown
  stops_at zero b cur fm h = absurd (cc h)
  stops_at (suc fuel) b cur fm h = elim (walk-cases fuel b fm) [
    | inl (inl z) ↦ absurd (ground (arith, h, z))
    | inl (inr y) ↦ absurd (ground (arith, h, y))
    | inr (inl (stop, run)) ↦
        let same : b ≡ cur = cc (run, h) in
        ap (λ z. is_known_block z.parent_hash fm) (sym same) ∙ stop.missing
    | inr (inr w) ↦ let (p, found, run) = walk_on fuel b fm w h in stops_at fuel p cur fm run
  ]
