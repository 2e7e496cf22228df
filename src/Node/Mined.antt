-- ===== src/Node/Mined.antt =====
-- A block that the producer finds is taken by the state transition function.
use blockchain_workshop.Prelude.{
  ℕ, zero, suc, ◌≡◌, refl, sym, ap, ◌∙◌, Bool, true, false, Option, none, some, Result, ok, Action,
  All, returned_value, if◌then◌else◌,
}
use blockchain_workshop.Prelude.Int.{ℤ, pos, ◌+ℤ◌}
use blockchain_workshop.Prelude.Actions.{lift, reads, ◌>>=◌, returned_step}
use blockchain_workshop.Crypto.{Crypto}
use blockchain_workshop.Types.Block
use blockchain_workshop.Types.Block.{Block}
use blockchain_workshop.Mempool.{get_transactions}
use blockchain_workshop.Chain.State.{BlockchainState}
use blockchain_workshop.Chain.Blocks.{difficulty, apply_block}
use blockchain_workshop.Chain.Building.{IsCheckable, apply_block-build_block}
use blockchain_workshop.Disk.{Json}
use blockchain_workshop.Canonical.{get_latest_state, update_canonical}
use blockchain_workshop.Node.Mining.{mine}
use blockchain_workshop.Node.Producer.{Producer, canonical_step, build_step, produce_block}

module _ ⦃c : Crypto⦄ where
  -- The hash that a block carries is not part of its text.
  difficulty_of_fields :
      (d : ℕ) (b b' : Block)
      → record b' { hash = b.hash } ≡ b
      → Block.has_difficulty d b' ≡ Block.has_difficulty d b
  unfolding Block.has_difficulty Block.calculate_hash Block.serialize
  difficulty_of_fields d b b' e = ap (λ (x : Block). Block.has_difficulty d x) e

  -- Some nonce of the block gives `b'`.
  abbrev IsMined : Block → Block → Type 0
  IsMined b b' =
      (k : ℤ) × (Block.has_difficulty difficulty (record b { nonce = k }) ≡ ok (true, b'))

  hashed_fields : (b b' : Block) → Block.calculate_hash b ≡ ok b' → record b' { hash = b.hash } ≡ b
  unfolding Block.calculate_hash
  hashed_fields b b' e =
      let (text, _, h) = returned_value (Block.serialize b) _ e in
      let same : record b { hash = c.sha256 text } ≡ b' = cc h in rw⁻¹ same refl

  tested_fields :
      (d : ℕ) (b b' : Block) {hard : Bool}
      → Block.has_difficulty d b ≡ ok (hard, b')
      → record b' { hash = b.hash } ≡ b
  unfolding Block.has_difficulty
  tested_fields d b b' e =
      let (b1, h, rest) = returned_value (Block.calculate_hash b) _ e in
      let same : b1 ≡ b' = cc rest in rw same at (hashed_fields b b1 h)

  apply_of_fields :
      (b b' : Block) (s : BlockchainState)
      → record b' { hash = b.hash } ≡ b
      → apply_block b' s ≡ apply_block b s
  unfolding apply_block Block.has_difficulty Block.calculate_hash Block.serialize
  apply_of_fields b b' s e = ap (λ (x : Block). apply_block x s) e

  -- A round leaves all but the hash.
  round_fields :
      (b b1 b2 : Block) {hard : Bool}
      → Block.calculate_hash b ≡ ok b1
      → Block.has_difficulty difficulty b1 ≡ ok (hard, b2)
      → record b2 { hash = b.hash } ≡ b
  round_fields b b1 b2 e d =
      ap (λ (x : Block). record x { hash = b.hash }) (tested_fields difficulty b1 b2 d)
      ∙ hashed_fields b b1 e

  IsMined-later : (b b2 b' : Block) → record b2 { hash = b.hash } ≡ b → IsMined b2 b' → IsMined b b'
  IsMined-later b b2 b' e (k, h) = (
    k,
    sym (
          difficulty_of_fields difficulty (record b { nonce = k }) (record b2 { nonce = k })
            (ap (λ (x : Block). record x { nonce = k }) e))
        ∙ h,
  )

  -- The end of a round.
  IsMined-round :
      (b b1 b2 b' : Block) (hard stop : Bool) (rest : Result (Option Block))
      → Block.calculate_hash b ≡ ok b1
      → Block.has_difficulty difficulty b1 ≡ ok (hard, b2)
      → (rest ≡ ok (some b') → IsMined (record b2 { nonce = b2.nonce +ℤ pos 1 }) b')
      → (if hard then ok (some b2) else if stop then ok none else rest) ≡ ok (some b')
      → IsMined b b'
  IsMined-round b b1 b2 b' true stop rest c1 d ih e =
      let same : b2 ≡ b' = cc e in
      (
        b.nonce,
        sym (difficulty_of_fields difficulty b b1 (hashed_fields b b1 c1))
            ∙ d
            ∙ ap (λ (x : Block). ok (true, x)) same,
      )
  IsMined-round b b1 b2 b' false true rest c1 d ih e = cc e
  IsMined-round b b1 b2 b' false false rest c1 d ih e =
      IsMined-later b b2 b' (round_fields b b1 b2 c1 d) (ih e)

  mine-IsMined :
      (fuel : ℕ) (changed : ℕ → Bool) (b b' : Block)
      → mine fuel changed b ≡ ok (some b')
      → IsMined b b'
  unfolding mine
  mine-IsMined zero changed b b' e = cc e
  mine-IsMined (suc fuel) changed b b' e =
      let (b1, c1, e1) = returned_value (Block.calculate_hash b) _ e in
      let ((hard, b2), d, e2) = returned_value (Block.has_difficulty difficulty b1) _ e1 in
      IsMined-round b b1 b2 b' hard (changed zero)
        (mine fuel (λ n. changed (suc n)) (record b2 { nonce = b2.nonce +ℤ pos 1 })) c1 d
        (mine-IsMined fuel (λ n. changed (suc n)) (record b2 { nonce = b2.nonce +ℤ pos 1 }) b') e2

  -- What the producer of a node finds is the next block. When the transactions of its pool are
  -- checkable and _produce_block returns a block: the state that it loaded behind update_canonical
  -- is one on which apply_block takes that block.
  pub produce_block-taken :
      (json : Json) (fuel : ℕ) (changed : ℕ → Bool) (p : Producer) (b : Block)
      → All IsCheckable (get_transactions p.mempool)
      → (produce_block json fuel changed p).0 ≡ ok (some b)
      → (s : BlockchainState) × (get_latest_state json
            (update_canonical json fuel p.canonicaliser).1
          ≡ ok s)
        × ((apply_block b s).0 ≡ ok b)
  unfolding produce_block
  produce_block-taken json fuel changed p b checkable e =
      let p1 = record p { canonicaliser = (update_canonical json fuel p.canonicaliser).1 } in
      let search : Block → Action Producer (Option Block) = λ b0. lift (mine fuel changed b0) in
      let load : Action Producer BlockchainState =
        reads (λ q. get_latest_state json q.canonicaliser) in
      let from_state : BlockchainState → Action Producer (Option Block) =
        λ s. build_step json s >>= search in
      let (_, _, e1) = returned_step (canonical_step json fuel) (λ _. load >>= from_state) p e in
      let (s, loaded, e2) = returned_step load from_state p1 e1 in
      let (b0, built, e3) = returned_step (build_step json s) search p1 e2 in
      let (k, hard) = mine-IsMined fuel changed b0 b e3 in
      (
        s,
        loaded,
        ap (λ r. r.0)
              (apply_of_fields (record b0 { nonce = k }) b s
                (tested_fields difficulty (record b0 { nonce = k }) b hard))
            ∙ apply_block-build_block p.coinbase k s p.mempool b0 b checkable built hard,
      )
