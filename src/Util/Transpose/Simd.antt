-- ===== src/Util/Transpose/Simd.antt =====
-- The SSE2 instructions, bit by bit.
use native.Mathlib.Decide.{dec_lt}
use petace_verse.Common.{
  ℕ, zero, suc, ◌+◌, ◌-◌, ◌*◌, ◌/◌, ◌%◌, ◌^◌, ◌<◌, List, [], ◌∷◌, ◌≡◌, ap, ◌∙◌, arith, get_or,
  length, All, ◌≢◌,
}
use petace_verse.Common.Bits.{
  bit, bit-join_low, bit-join_high, bit-shift, bit-mod, bit-suc, bit-zero, bit-lt-two,
}
use petace_verse.Util.Transpose.{set_epi8, movemask_from, movemask_epi8, slli_epi64}

abbrev pub IsByte : ℕ → Type 0
IsByte b = b < 256

pub bit-set_epi8 :
    (bs : List ℕ) (m c : ℕ)
    → All IsByte bs
    → m < length bs
    → c < 8
    → bit (set_epi8 bs) (8 * m + c) ≡ bit (get_or bs m 0) c
unfolding set_epi8
bit-set_epi8 [] m c a h lt = absurd (omega arith)
bit-set_epi8 (b ∷ bs) zero c a h lt =
    let e : 8 * 0 + c ≡ c = omega arith in rw e (bit-join_low 8 (set_epi8 bs) b c lt)
bit-set_epi8 (b ∷ bs) (suc m) c a h lt =
    let e : 8 * suc m + c ≡ 8 + (8 * m + c) = omega arith in
    rw e
      (bit-join_high 8 (set_epi8 bs) b (8 * m + c) a.0 ∙ bit-set_epi8 bs m c a.1 (omega arith) lt)

bit_of_bit : (d k : ℕ) → bit (bit d k) 0 ≡ bit d k
bit_of_bit d k = omega (arith, bit-zero (bit d k), bit-lt-two d k)

bit-movemask_from : (n m d k : ℕ) → k < n → bit (movemask_from n m d) k ≡ bit d (8 * (m + k) + 7)
unfolding movemask_from
bit-movemask_from zero m d k h = absurd (omega arith)
bit-movemask_from (suc n) m d zero h =
    let e : 8 * (m + 0) + 7 ≡ 8 * m + 7 = omega arith in
    rw e (
      bit-join_low 1 (movemask_from n (m + 1) d) (bit d (8 * m + 7)) 0 (omega arith)
      ∙ bit_of_bit d (8 * m + 7))
bit-movemask_from (suc n) m d (suc k) h =
    let e : 8 * (m + suc k) + 7 ≡ 8 * (m + 1 + k) + 7 = omega arith in
    let f : suc k ≡ 1 + k = omega arith in
    rw (e, f)
      (bit-join_high 1 (movemask_from n (m + 1) d) (bit d (8 * m + 7)) k (bit-lt-two d _)
        ∙ bit-movemask_from n (m + 1) d k (omega arith))

-- Bit `k` of the mask is the top bit of byte `k`.
pub bit-movemask_epi8 : (d k : ℕ) → k < 16 → bit (movemask_epi8 d % 2 ^ 16) k ≡ bit d (8 * k + 7)
unfolding movemask_epi8
bit-movemask_epi8 d k h =
    let e : 0 + k ≡ k = omega arith in
    bit-mod 16 (movemask_from 16 0 d) k h
    ∙ bit-movemask_from 16 0 d k h
    ∙ ap (λ (t : ℕ). bit d (8 * t + 7)) e

bit_double : (n k : ℕ) → bit (n * 2) (suc k) ≡ bit n k
bit_double n k =
    let e : n * 2 / 2 ≡ n = omega arith in bit-suc (n * 2) k ∙ ap (λ (t : ℕ). bit t k) e

-- Away from the bottom of a lane a shifted bit is the one below it.
pub bit-slli_epi64 : (d p : ℕ) → p < 127 → p ≢ 63 → bit (slli_epi64 d) (suc p) ≡ bit d p
unfolding slli_epi64
bit-slli_epi64 d p h ne = elim (dec_lt p 63) [
  | yes q ↦
      bit-join_low 64 (d / 2 ^ 64 * 2 % 2 ^ 64) (d % 2 ^ 64 * 2 % 2 ^ 64) (suc p) (omega arith)
      ∙ bit-mod 64 (d % 2 ^ 64 * 2) (suc p) (omega arith)
      ∙ bit_double (d % 2 ^ 64) p
      ∙ bit-mod 64 d p (omega arith)
  | no q ↦
      let r : ℕ = p - 64 in
      let e : suc p ≡ 64 + suc r = omega arith in
      let e' : 64 + r ≡ p = omega arith in
      rw e (
        bit-join_high 64 (d / 2 ^ 64 * 2 % 2 ^ 64) (d % 2 ^ 64 * 2 % 2 ^ 64) (suc r) (omega arith)
        ∙ bit-mod 64 (d / 2 ^ 64 * 2) (suc r) (omega arith)
        ∙ bit_double (d / 2 ^ 64) r
        ∙ bit-shift 64 d r
        ∙ ap (bit d) e')
]
