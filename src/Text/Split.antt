-- ===== src/Text/Split.antt =====
-- str.split(sep) for a separator of one character, and sep.join(parts).
use blockchain_workshop.Prelude.{
  ℕ, List, [], ◌∷◌, ◌++◌, ◌≡◌, ◌≢◌, refl, Text, arith, All, Lacks, ◌==◌, if◌then◌else◌, ℕ_eq,
}

push : ℕ → List Text → List Text
push c [] = (c ∷ []) ∷ []
push c (p ∷ ps) = (c ∷ p) ∷ ps

unfoldable pub split : ℕ → Text → List Text
unfolding push
split sep [] = [] ∷ []
split sep (c ∷ s) = let rest = split sep s in if c == sep then [] ∷ rest else push c rest

unfoldable pub join : ℕ → List Text → Text
join sep [] = []
join sep (p ∷ []) = p
join sep (p ∷ q ∷ ps) = p ++ sep ∷ join sep (q ∷ ps)

-- A part without separators is the whole split.
pub split_lacking : (sep : ℕ) (p : Text) → Lacks sep p → split sep p ≡ p ∷ []
unfolding split
split_lacking sep [] h = refl
split_lacking sep (c ∷ p) h = ground (arith, split_lacking sep p h.1)

-- A part without separators is split off at the first separator.
pub split_at : (sep : ℕ) (p s : Text) → Lacks sep p → split sep (p ++ sep ∷ s) ≡ p ∷ split sep s
unfolding split
split_at sep [] s h = ground arith
split_at sep (c ∷ p) s h = ground (arith, split_at sep p s h.1)

-- Splitting a join gives the parts back, if there is a part and none holds the separator.
pub split-join :
    (sep : ℕ) (ps : List Text) → ps ≢ [] → All (Lacks sep) ps → split sep (join sep ps) ≡ ps
unfolding join
split-join sep [] h _ = absurd (h refl)
split-join sep (p ∷ []) h hp = split_lacking sep p hp.0
split-join sep (p ∷ q ∷ ps) h hp =
    ground (arith, split_at sep p (join sep (q ∷ ps)) hp.0, split-join sep (q ∷ ps) (cc) hp.1)
