-- ===== src/Util/Transpose/Load.antt =====
-- The bytes that a tile of the transposition is made of, and the register that holds them.
use native.Mathlib.Nat.{mul-le-mul_right}
use petace_verse.Common.{
  ℕ, zero, suc, ◌+◌, ◌^◌, ◌%◌, ◌*◌, ◌/◌, ◌≤◌, ◌<◌, List, [], ◌∷◌, ◌≡◌, ap, ◌∙◌, arith, length, All,
  Returns, build, build-Returns, Built, Built-get_or, length-Built,
}
use petace_verse.Common.Bits.{bit}
use petace_verse.Util.Memory.{Block, bit_at}
use petace_verse.Util.Memory.Laws.{load_byte_lem, bit-byte_at}
use petace_verse.Util.Transpose.{set_epi8, slli_epi64, f}
use petace_verse.Util.Transpose.Simd.{IsByte, bit-set_epi8, bit-slli_epi64}

pub index-lt : (x y r c : ℕ) → x < r → y < c → x * c + y < r * c
index-lt x y r c p q = let h : suc x * c ≤ r * c = mul-le-mul_right c p in omega arith

-- A matrix of `128 * R` rows and `128 * C` columns of bits.
module _ (input : List Block) (R C : ℕ) where
  -- The register after `t` rounds at the tile of row `i` and column `j`.
  abbrev pub Shifted : ℕ → ℕ → ℕ → Block → Type 0
  Shifted i j t reg =
      (m c : ℕ)
      → m < 16
      → c + t < 8
      → bit reg (8 * m + (c + t)) ≡ bit_at input ((i + m) * (128 * C) + (j + c))

  abbrev pub Loaded : ℕ → ℕ → ℕ → ℕ → Type 0
  Loaded i j m v =
      IsByte v × ((c : ℕ) → c < 8 → bit v c ≡ bit_at input ((i + m) * (128 * C) + (j + c)))

  module _ (small : 128 * R * (128 * C) < 2 ^ 64) (fits : 128 * (R * C) ≤ length input) where
    load_row :
        (x b : ℕ)
        → x < 128 * R
        → 8 * b < 128 * C
        → Returns
            (λ v.
              IsByte v × ((c : ℕ) → c < 8 → bit v c ≡ bit_at input (x * (128 * C) + (8 * b + c))))
            (f input (128 * R) (128 * C) x (8 * b))
    load_row x b p q =
        let off : ℕ = x * (128 * C) / 8 + 8 * b / 8 in
        let inside : x * (128 * C) + 8 * b < 128 * R * (128 * C) = index-lt x (8 * b) _ _ p q in
        let range : off < 16 * length input = omega arith in
        let whole : x * (128 * C) % 2 ^ 64 ≡ x * (128 * C) = omega arith in
        rw (whole, load_byte_lem input off range)
          (
            omega arith,
            λ c h.
                let e : 8 * off + c ≡ x * (128 * C) + (8 * b + c) = omega arith in
                bit-byte_at input off c h ∙ ap (bit_at input) e,
          )

    pub load_tile :
        (a b : ℕ)
        → 16 * a + 16 ≤ 128 * R
        → 8 * b < 128 * C
        → Returns
            (Built 16 0 (Loaded (16 * a) (8 * b)))
            (build 16 0 (λ m. f input (128 * R) (128 * C) (16 * a + m) (8 * b)))
    load_tile a b p q =
        build-Returns (Loaded (16 * a) (8 * b)) _ 16 0
          (λ k _ h. load_row (16 * a + k) b (omega arith) q)

  bytes_of_Loaded : (i j n k : ℕ) (bs : List ℕ) → Built n k (Loaded i j) bs → All IsByte bs
  bytes_of_Loaded i j zero k [] h = tt
  bytes_of_Loaded i j zero k (x ∷ bs) h = elim h [ ]
  bytes_of_Loaded i j (suc n) k [] h = elim h [ ]
  bytes_of_Loaded i j (suc n) k (x ∷ bs) h = (h.0.0, bytes_of_Loaded i j n (k + 1) bs h.1)

  pub start-Shifted :
      (i j : ℕ) (bs : List ℕ) → Built 16 0 (Loaded i j) bs → Shifted i j 0 (set_epi8 bs)
  start-Shifted i j bs h m c p q =
      let e : c + 0 ≡ c = omega arith in
      rw e (
        bit-set_epi8 bs m c (bytes_of_Loaded i j 16 0 bs h)
          (omega (arith, length-Built (Loaded i j) 16 0 bs h)) (omega arith)
        ∙ (Built-get_or (Loaded i j) 16 0 bs m m 0 h p (omega arith)).1 c (omega arith))

  pub shift-Shifted :
      (i j t : ℕ) (reg : Block) → Shifted i j t reg → Shifted i j (t + 1) (slli_epi64 reg)
  shift-Shifted i j t reg h m c p q =
      let e : 8 * m + (c + (t + 1)) ≡ suc (8 * m + (c + t)) = omega arith in
      rw e (
        bit-slli_epi64 reg (8 * m + (c + t)) (omega arith)
          (λ (z : 8 * m + (c + t) ≡ 63). absurd (omega arith))
        ∙ h m c p (omega arith))
