-- ===== src/Kkrt/Masks.antt =====
-- The masks of the protocol: what the sender keeps of a row, and what `encode` takes off again.
use petace_verse.Common.{
  ℕ, zero, suc, ◌+◌, ◌*◌, ◌/◌, ◌%◌, ◌<◌, bit_and, bit_xor, min, List, [], ◌==◌, if◌then◌else◌,
  length, get_or, All, All-get_or, ◌≡◌, refl, ap, ◌∙◌, arith, Bool-cases, inl, inr, ◌≤◌,
}
use petace_verse.Common.Bits.{
  bit, bit-bit_xor, bit-bit_and, bit-lt-two, bit_ext, bit_ext_below, bit_xor-lt, bit_and-lt,
}
use petace_verse.Util.Memory.{Block, IsBlock, bit_at}
use petace_verse.Kkrt.Squares.{IsRows}

-- Digit by digit: choosing by `s` is adding the difference under the mask `s`.
select_digit :
    (s a b : ℕ) → s < 2 → a < 2 → b < 2 → (if s == 0 then a else b) ≡ (a + min ((a + b) % 2) s) % 2
select_digit zero a b p q r = omega arith
select_digit (suc zero) a b p q r = omega arith
select_digit (suc (suc s)) a b p q r = absurd (omega arith)

bit_if :
    (s : ℕ) (a b : List Block) (i x : ℕ)
    → bit (get_or (if s == 0 then a else b) i 0) x
      ≡ (if s == 0 then bit (get_or a i 0) x else bit (get_or b i 0) x)
bit_if s a b i x = elim (Bool-cases (s == 0)) [ inl z ↦ rw z refl | inr z ↦ rw z refl ]

-- The sender's turned rows are the receiver's first ones, with the difference of the receiver's two
-- added under the base choices.
pub q_rows :
    (ext threshhold : ℕ) (base_choices : List Block) (e t0 t1 qs row0 row1 : List (List Block))
    → IsRows e ext threshhold qs
    → IsRows t0 ext threshhold row0
    → IsRows t1 ext threshhold row1
    → threshhold ≤ length base_choices
    → All IsBlock base_choices
    → ((x : ℕ)
        → x < threshhold * 128
        → get_or e x [] ≡ (if bit_at base_choices x == 0 then get_or t0 x [] else get_or t1 x []))
    → (r j : ℕ) → r < ext
    → j < threshhold
    → let a = get_or (get_or row0 r []) j 0 in
      let b = get_or (get_or row1 r []) j 0 in
      get_or (get_or qs r []) j 0 ≡ bit_xor a (bit_and (bit_xor a b) (get_or base_choices j 0))
q_rows ext threshhold base_choices e t0 t1 qs row0 row1 he h0 h1 enough blocks rows r j lt hj =
    let a = get_or (get_or row0 r []) j 0 in
    let b = get_or (get_or row1 r []) j 0 in
    let s = get_or base_choices j 0 in
    let a_block = h0.block r j lt hj in
    let b_block = h1.block r j lt hj in
    let s_block = All-get_or IsBlock base_choices j 0 blocks (omega arith) in
    bit_ext_below 128 _ _ (he.block r j lt hj)
      (bit_xor-lt 128 a _ a_block (bit_and-lt 128 _ s (bit_xor-lt 128 a b a_block b_block) s_block))
      λ y hy.
        let sy : ℕ = bit_at base_choices (j * 128 + y) in
        let at : sy ≡ bit s y =
          let d : (j * 128 + y) / 128 ≡ j = omega arith in
          let m : (j * 128 + y) % 128 ≡ y = omega arith in rw (d, m) refl in
        let row : j * 128 + y < threshhold * 128 = omega arith in
        let picked =
          he.cells r j y lt hj hy
          ∙ ap (λ (v : List Block). bit (get_or v (r / 128) 0) (r % 128)) (rows (j * 128 + y) row)
          ∙ bit_if sy _ _ (r / 128) (r % 128)
          ∙ select_digit sy _ _ (bit-lt-two _ _) (bit-lt-two _ _) (bit-lt-two _ _) in
        omega (
          arith,
          picked,
          at,
          h0.cells r j y lt hj hy,
          h1.cells r j y lt hj hy,
          bit-bit_xor y a (bit_and (bit_xor a b) s),
          bit-bit_and y (bit_xor a b) s,
          bit-bit_xor y a b,
        )

unmask_digit :
    (a b s h w : ℕ)
    → a < 2
    → b < 2
    → s < 2
    → h < 2
    → w < 2
    → (min s ((h + w) % 2)
          + ((a + min ((a + b) % 2) s) % 2 + min ((h + ((a + b) % 2 + w) % 2) % 2) s) % 2)
        % 2
      ≡ a
unmask_digit a b zero h w ha hb hs hh hw = omega arith
unmask_digit a b (suc zero) h w ha hb hs hh hw = omega arith
unmask_digit a b (suc (suc s)) h w ha hb hs hh hw = absurd (omega arith)

-- The masks cancel when the encoded value `w` is the chosen one and `h` its hash.
pub unmask :
    (a b s h w : ℕ)
    → bit_xor (bit_and s (bit_xor h w)) (
        bit_xor
          (bit_xor a (bit_and (bit_xor a b) s))
          (bit_and (bit_xor h (bit_xor (bit_xor a b) w)) s))
      ≡ a
unmask a b s h w = bit_ext _ _ λ k.
    rw
      (
        bit-bit_xor k (bit_and s (bit_xor h w)) (
            bit_xor (bit_xor a (bit_and (bit_xor a b) s))
              (bit_and (bit_xor h (bit_xor (bit_xor a b) w)) s)),
        bit-bit_and k s (bit_xor h w),
        bit-bit_xor k h w,
        bit-bit_xor k (bit_xor a (bit_and (bit_xor a b) s))
            (bit_and (bit_xor h (bit_xor (bit_xor a b) w)) s),
        bit-bit_xor k a (bit_and (bit_xor a b) s),
        bit-bit_and k (bit_xor a b) s,
        bit-bit_and k (bit_xor h (bit_xor (bit_xor a b) w)) s,
        bit-bit_xor k h (bit_xor (bit_xor a b) w),
        bit-bit_xor k (bit_xor a b) w,
        bit-bit_xor k a b,
      )
      (unmask_digit (bit a k) (bit b k) (bit s k) (bit h k) (bit w k) (bit-lt-two a k)
        (bit-lt-two b k) (bit-lt-two s k) (bit-lt-two h k) (bit-lt-two w k))
