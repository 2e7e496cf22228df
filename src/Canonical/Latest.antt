-- ===== src/Canonical/Latest.antt =====
-- What the canonicaliser keeps in its fields is what its storage says, also when it raises.
use blockchain_workshop.Prelude.{
  ℕ, [], ◌∷◌, List, ◌≡◌, ◌≢◌, refl, ap, ◌∙◌, inl, inr, false, ok, Bytes, codes, ◌==◌, ==_refl,
  ==-cases, Bytes_eq, Option-cases, Result-cases, Bool-cases,
}
use blockchain_workshop.Prelude.Int.{ℤ, ℤ_eq}
use blockchain_workshop.Prelude.Actions.{keeps_bind}
use blockchain_workshop.Text.Decimal.{str, int, int-str, lstrip}
use blockchain_workshop.Storage
use blockchain_workshop.Storage.{Store, load-save}
use blockchain_workshop.Crypto.{Crypto}
use blockchain_workshop.Types.Block.{Block}
use blockchain_workshop.Chain.State.{BlockchainState}
use blockchain_workshop.Chain.Blocks.{apply_block}
use blockchain_workshop.Disk.{Json, load_from_disk}
use blockchain_workshop.Canonical.{
  ChainCanonicaliser, get_latest_num, get_latest_hash, record_block, apply_one, apply_all, plan,
  switch_to, update_canonical,
}

-- latest_num and latest_hash are what _get_latest_num and _get_latest_hash read.
abbrev pub IsConsistent : ChainCanonicaliser → Type 0
IsConsistent chain =
    (get_latest_num chain.blocknum_storage ≡ ok chain.latest_num)
    × (get_latest_hash chain.blocknum_storage ≡ ok chain.latest_hash)

not_a_number : (n : ℤ) → int (codes "latest") ≢ ok n
unfolding int lstrip
not_a_number n e = cc e

-- No number is written as the key of the latest one.
pub latest_is_no_number : (n : ℤ) → (codes "latest" == str n) ≡ false
latest_is_no_number n = elim (==-cases (codes "latest") (str n)) [
  | inr (_, t) ↦ t
  | inl (same, _) ↦ absurd (not_a_number n (ap int same ∙ int-str n))
]

-- The storage behind the two saves.
abbrev pub recorded : ℤ → Bytes → Store → Store
recorded n h st = Storage.save (codes "latest") (str n) (Storage.save (str n) h st)

pub latest_num-recorded : (n : ℤ) (h : Bytes) (st : Store) → get_latest_num (recorded n h st) ≡ ok n
unfolding get_latest_num
latest_num-recorded n h st =
    rw
      (
        get_latest_num,
        load-save (codes "latest") (codes "latest") (str n) (Storage.save (str n) h st),
      )
      (int-str n)

pub latest_hash-recorded :
    (n : ℤ) (h : Bytes) (st : Store) → get_latest_hash (recorded n h st) ≡ ok h
unfolding get_latest_hash
latest_hash-recorded n h st =
    rw
      (
        get_latest_hash,
        latest_num-recorded n h st,
        load-save (codes "latest") (str n) (str n) (Storage.save (str n) h st),
        latest_is_no_number n,
        load-save (str n) (str n) h st,
        ==_refl (str n),
      )
      refl

module _ ⦃c : Crypto⦄ (json : Json) where
  record_block-IsConsistent :
      (b : Block) (s : BlockchainState) (chain : ChainCanonicaliser)
      → IsConsistent (record_block json b s chain)
  unfolding record_block
  record_block-IsConsistent b s chain = (
    latest_num-recorded b.number b.hash chain.blocknum_storage,
    latest_hash-recorded b.number b.hash chain.blocknum_storage,
  )

  abbrev Holds : BlockchainState × ChainCanonicaliser → Type 0
  Holds p = IsConsistent p.1

  apply_one-Holds :
      (b : Block) (p : BlockchainState × ChainCanonicaliser)
      → Holds p
      → Holds (apply_one json b p).1
  unfolding apply_one
  apply_one-Holds b (s, chain) h = elim (Result-cases (apply_block b s).0) [
    | inr (x, e) ↦ rw (apply_one, e) h
    | inl (b', e) ↦ elim (Bool-cases ((apply_block b s).1.block_number == b'.number)) [
      | inl t ↦ rw (apply_one, e, t) (record_block-IsConsistent b' (apply_block b s).1 chain)
      | inr t ↦ rw (apply_one, e, t) h
    ]
  ]

  apply_all-Holds :
      (bs : List Block) (p : BlockchainState × ChainCanonicaliser)
      → Holds p
      → Holds (apply_all json bs p).1
  unfolding apply_all
  apply_all-Holds [] p h = h
  apply_all-Holds (b ∷ bs) p h =
      let h1 = apply_one-Holds b p h in
      keeps_bind Holds (λ _. apply_all json bs) (apply_one json b) p h1
        (λ _ _. apply_all-Holds bs (apply_one json b p).1 h1)

  switch_to-IsConsistent :
      (base : Block) (todo : List Block) (chain : ChainCanonicaliser)
      → IsConsistent chain
      → IsConsistent (switch_to json base todo chain).1
  unfolding switch_to
  switch_to-IsConsistent base todo chain h =
      elim (Result-cases (load_from_disk json base.number chain.blockstate_storage)) [
        | inl (s, e) ↦ rw (switch_to, e) (apply_all-Holds todo (s, chain) h)
        | inr (x, e) ↦ rw (switch_to, e) h
      ]

  -- However update_canonical ends, with the branch applied, with a part of it or with none: when
  -- latest_num and latest_hash are what the number storage holds, they are so afterwards.
  pub update_canonical-IsConsistent :
      (fuel : ℕ) (chain : ChainCanonicaliser)
      → IsConsistent chain
      → IsConsistent (update_canonical json fuel chain).1
  unfolding update_canonical
  update_canonical-IsConsistent fuel chain h =
      elim (Option-cases chain.fork_manager.highest_block) [
        | inl e ↦ rw (update_canonical, e) h
        | inr (tip, e) ↦ elim (Result-cases (plan fuel tip chain)) [
          | inr (x, p) ↦ rw (update_canonical, e, p) h
          | inl ((base, todo), p) ↦
              rw (update_canonical, e, p) (switch_to-IsConsistent base todo chain h)
        ]
      ]
