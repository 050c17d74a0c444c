-- ===== src/Pairing.antt =====
-- How the base transfers tie the generators of the two parties of an extension together.
pub mod Again
use petace_verse.Common.{
  ℕ, suc, ◌+◌, ◌<◌, List, [], ◌∷◌, map, ◌==◌, if◌then◌else◌, length, get_or, ◌≡◌, ap, arith,
  Bool-cases, inl, inr,
}
use petace_verse.Util.Memory.{Block, bit_at}
use petace_verse.Crypto.{Crypto, seeded}

-- The message that the choice bit of a transfer picks.
abbrev pub chosen : List Block → List (Block × Block) → ℕ → Block
chosen choices messages i =
    if bit_at choices i == 0 then (get_or messages i (0, 0)).0 else (get_or messages i (0, 0)).1

module _ (c : Crypto) where
  -- The sender's generators are the receiver's at the base choices, from row `i` on.
  abbrev pub Paired : List Block → ℕ → List c.Prng → List (c.Prng × c.Prng) → Type 0
  Paired base_choices i [] [] = Unit
  Paired base_choices i [] (q ∷ qs) = ⊥
  Paired base_choices i (p ∷ ps) [] = ⊥
  Paired base_choices i (p ∷ ps) (q ∷ qs) =
      (p ≡ (if bit_at base_choices i == 0 then q.0 else q.1)) × Paired base_choices (i + 1) ps qs

  -- Generators seeded with the two sides of base transfers are paired.
  pub Paired-map :
      (choices : List Block) (i : ℕ) (recv : List Block) (sent : List (Block × Block))
      → length recv ≡ length sent
      → ((k : ℕ)
          → k < length sent
          → get_or recv k 0 ≡ (
              if bit_at choices (i + k) == 0
              then (get_or sent k (0, 0)).0
              else (get_or sent k (0, 0)).1))
      → Paired choices i
          (map (seeded c) recv)
          (map (λ (m : Block × Block). (seeded c m.0, seeded c m.1)) sent)
  Paired-map choices i [] [] e h = tt
  Paired-map choices i [] (m ∷ sent) e h = absurd (omega arith)
  Paired-map choices i (b ∷ recv) [] e h = absurd (omega arith)
  Paired-map choices i (b ∷ recv) (m ∷ sent) e h = (
    first,
    Paired-map choices (i + 1) recv sent (omega arith)
        (λ k lt. let z : i + suc k ≡ i + 1 + k = omega arith in rw z at (h (suc k) (omega arith))),
  )
    where
      at_i : b ≡ (if bit_at choices i == 0 then m.0 else m.1)
      at_i = let z : i + 0 ≡ i = omega arith in rw z at (h 0 (omega arith))

      first : seeded c b ≡ (if bit_at choices i == 0 then seeded c m.0 else seeded c m.1)
      first = elim (Bool-cases (bit_at choices i == 0)) [
        | inl z ↦ rw z (ap (seeded c) (rw z at at_i))
        | inr z ↦ rw z (ap (seeded c) (rw z at at_i))
      ]
