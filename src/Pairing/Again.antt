-- ===== src/Pairing/Again.antt =====
-- Base transfers taken a second time: new generators behind the old, new choices before the old.
use petace_verse.Common.{
  ℕ, zero, suc, ◌+◌, ◌*◌, ◌/◌, ◌%◌, ◌<◌, List, [], ◌∷◌, ◌++◌, ◌==◌, if◌then◌else◌, length, get_or,
  ◌≡◌, ◌≢◌, sym, ◌∙◌, ap, arith, get_or-append_left, length-append, Bool-cases, inl, inr, refl,
}
use petace_verse.Common.Bits.{bit, bit-lt-two}
use petace_verse.Util.Memory.{Block, bit_at}
use petace_verse.Crypto.{Crypto}
use petace_verse.Pairing.{Paired}

bit_at-append :
    (new old : List Block) (k : ℕ) → k < 128 * length new → bit_at (new ++ old) k ≡ bit_at new k
bit_at-append new old k lt =
    ap (λ (b : Block). bit b (k % 128)) (get_or-append_left new old (k / 128) 0 (omega arith))

module _ (c : Crypto) where
  Paired-length :
      (choices : List Block) (i : ℕ) (ps : List c.Prng) (qs : List (c.Prng × c.Prng))
      → Paired c choices i ps qs
      → length ps ≡ length qs
  Paired-length choices i [] [] h = refl
  Paired-length choices i [] (q ∷ qs) h = elim h [ ]
  Paired-length choices i (p ∷ ps) [] h = elim h [ ]
  Paired-length choices i (p ∷ ps) (q ∷ qs) h = ap suc (Paired-length choices (i + 1) ps qs h.1)

  Paired-get_or :
      (choices : List Block) (i k : ℕ) (ps : List c.Prng) (qs : List (c.Prng × c.Prng)) (p : c.Prng)
      (q : c.Prng × c.Prng)
      → Paired c choices i ps qs
      → k < length ps
      → get_or ps k p
        ≡ (if bit_at choices (i + k) == 0 then (get_or qs k q).0 else (get_or qs k q).1)
  Paired-get_or choices i k [] qs p q h lt = absurd (omega arith)
  Paired-get_or choices i k (a ∷ ps) [] p q h lt = elim h [ ]
  Paired-get_or choices i zero (a ∷ ps) (b ∷ qs) p q h lt =
      let z : i + 0 ≡ i = omega arith in rw z (h.0)
  Paired-get_or choices i (suc k) (a ∷ ps) (b ∷ qs) p q h lt =
      let z : i + suc k ≡ i + 1 + k = omega arith in
      rw z (Paired-get_or choices (i + 1) k ps qs p q h.1 (omega arith))

  pub again-unpaired :
      (old new : List Block) (k : ℕ) (ps later : List c.Prng) (qs later' : List (c.Prng × c.Prng))
      (q : c.Prng × c.Prng)
      → Paired c old 0 ps qs
      → k < length ps
      → k < 128 * length new
      → bit_at new k ≢ bit_at old k
      → (get_or qs k q).0 ≢ (get_or qs k q).1
      → ¬ Paired c (new ++ old) 0 (ps ++ later) (qs ++ later')
  again-unpaired old new k ps later qs later' q h lt covered bits apart h' =
      let same = Paired-length old 0 ps qs h in
      let z : 0 + k ≡ k = omega arith in
      let before = rw z at (Paired-get_or old 0 k ps qs q.0 q h lt) in
      let after =
        rw
          (
            z,
            get_or-append_left ps later k q.0 lt,
            get_or-append_left qs later' k q (omega arith),
            bit_at-append new old k covered,
          )
          at
          (Paired-get_or (new ++ old) 0 k (ps ++ later) (qs ++ later') q.0 q h'
            (omega (arith, length-append ps later))) in
      let b : bit_at old k < 2 = bit-lt-two (get_or old (k / 128) 0) (k % 128) in
      let b' : bit_at new k < 2 = bit-lt-two (get_or new (k / 128) 0) (k % 128) in
      elim (Bool-cases (bit_at old k == 0)) [
        | inl z1 ↦ elim (Bool-cases (bit_at new k == 0)) [
          | inl z2 ↦ absurd (bits (ground arith))
          | inr z2 ↦ absurd (apart (sym (rw z1 at before) ∙ (rw z2 at after)))
        ]
        | inr z1 ↦ elim (Bool-cases (bit_at new k == 0)) [
          | inl z2 ↦ absurd (apart (sym (rw z2 at after) ∙ (rw z1 at before)))
          | inr z2 ↦ absurd (bits (ground arith))
        ]
      ]
