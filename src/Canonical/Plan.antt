-- ===== src/Canonical/Plan.antt =====
-- The first half of update_canonical: the two loops find the branch from the stored chain to the
-- tip.
use blockchain_workshop.Prelude.{
  ℕ, zero, suc, [], ◌∷◌, List, ◌≡◌, refl, inl, inr, ok, arith, ◌==◌, bytes_eq_iff, Bytes_eq,
  Result-cases, Bool-cases,
}
use blockchain_workshop.Prelude.Int.{ℤ, ltb_ℤ}
use blockchain_workshop.Storage.{Store}
use blockchain_workshop.Crypto.{Crypto}
use blockchain_workshop.Types.Block.{Block}
use blockchain_workshop.Fork.{ForkManager, get_parent}
use blockchain_workshop.Canonical.{
  ChainCanonicaliser, get_block_by_hash, get_latest_block, descend, meet, plan,
}

module _ ⦃c : Crypto⦄ where
  -- Each block of the list is the child of the one before it, from `low` up to `tip`.
  abbrev pub Climbs : ForkManager → Block → List Block → Block → Type 0
  Climbs fm low [] tip = low ≡ tip
  Climbs fm low (b ∷ bs) tip = (get_parent b fm ≡ ok low) × Climbs fm b bs tip

  -- The second block is reached from the first one by steps to a child, as the blocks are stored.
  pub data IsBelow (blocks : Store) (low : Block) : Block → Type 0 where
    here : IsBelow blocks low low
    above :
        {b parent : Block}
        → get_block_by_hash b.parent_hash blocks ≡ ok parent
        → IsBelow blocks low parent
        → IsBelow blocks low b

  descend-Climbs :
      (fuel : ℕ) (b top low : Block) (height : ℤ) (todo todo' : List Block) (fm : ForkManager)
      → Climbs fm b todo top
      → descend fuel b height todo fm ≡ ok (low, todo')
      → Climbs fm low todo' top
  unfolding descend
  descend-Climbs zero b top low height todo todo' fm c e = cc e
  descend-Climbs (suc fuel) b top low height todo todo' fm c e =
      elim (Bool-cases (ltb_ℤ height b.number)) [
        | inr t ↦
            let same : b ≡ low = ground arith in
            let rest : todo ≡ todo' = ground arith in rw (← same, ← rest) c
        | inl t ↦ elim (Result-cases (get_parent b fm)) [
          | inl (parent, g) ↦
              descend-Climbs fuel parent top low height (b ∷ todo) todo' fm (g, c) (ground arith)
          | inr (x, g) ↦ absurd (ground arith)
        ]
      ]

  -- Where the branch leaves the stored chain: the base, and the block with its hash on the branch.
  pub record Branch (fm : ForkManager) (latest tip base : Block) (todo : List Block) : Type 0 where
    pub low : Block
    pub same_hash : low.hash ≡ base.hash
    pub climbs : Climbs fm low todo tip
    pub below : IsBelow fm.block_storage base latest

  meet-Branch :
      (fuel : ℕ) (b latest top base : Block) (todo todo' : List Block) (fm : ForkManager)
      → Climbs fm b todo top
      → meet fuel b latest todo fm ≡ ok (base, todo')
      → Branch fm latest top base todo'
  unfolding meet
  meet-Branch zero b latest top base todo todo' fm c e = cc e
  meet-Branch (suc fuel) b latest top base todo todo' fm c e =
      elim (Bool-cases (b.hash == latest.hash)) [
        | inl t ↦
            let same : latest ≡ base = ground arith in
            let rest : todo ≡ todo' = ground arith in
            rw (← same, ← rest)
              (record {
                low = b;
                same_hash = (bytes_eq_iff b.hash latest.hash).0 t;
                climbs = c;
                below = here;
              })
        | inr t ↦ elim (Result-cases (get_parent b fm)) [
          | inr (x, g) ↦ absurd (ground arith)
          | inl (parent, g) ↦
              elim (Result-cases (get_block_by_hash latest.parent_hash fm.block_storage)) [
                | inr (x, g') ↦ absurd (ground arith)
                | inl (before, g') ↦
                    let r =
                      meet-Branch fuel parent before top base (b ∷ todo) todo' fm (g, c)
                        (ground arith) in
                    record {
                      low = r.low;
                      same_hash = r.same_hash;
                      climbs = r.climbs;
                      below = above g' r.below;
                    }
              ]
        ]
      ]

  -- When the two loops of update_canonical end, the block that they found is an ancestor of the
  -- latest block in the block storage (or that block itself), and the blocks to apply lead from a
  -- block with the same hash, each the parent of the next, to the tip.
  pub plan-Branch :
      (fuel : ℕ) (tip base : Block) (todo : List Block) (chain : ChainCanonicaliser)
      → plan fuel tip chain ≡ ok (base, todo)
      → (latest : Block) × (get_latest_block chain ≡ ok latest)
        × Branch chain.fork_manager latest tip base todo
  unfolding plan
  plan-Branch fuel tip base todo chain e = elim (Result-cases (get_latest_block chain)) [
    | inr (x, g) ↦ absurd (ground arith)
    | inl (latest, g) ↦ elim (Result-cases (descend fuel tip latest.number [] chain.fork_manager)) [
      | inr (x, d) ↦ absurd (ground arith)
      | inl ((low, rest), d) ↦ (
        latest,
        g,
        meet-Branch fuel low latest tip base rest todo chain.fork_manager
            (descend-Climbs fuel tip tip low latest.number [] rest chain.fork_manager refl d)
            (ground arith),
      )
    ]
  ]
