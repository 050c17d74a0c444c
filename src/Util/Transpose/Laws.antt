-- ===== src/Util/Transpose/Laws.antt =====
-- `matrix_transpose` as a whole, against the transposed bit matrix.
use native.Mathlib.Decide.{dec_lt}
use petace_verse.Common.{
  ℕ, ok, get_or, refl, replicate, length-replicate, sym, ◌∙◌, suc, zero, Returns-value, ◌+◌, ◌*◌,
  ◌/◌, ◌%◌, ◌^◌, ◌≤◌, ◌<◌, List, err, transpose_size, ◌≡◌, arith, length, All, ◌≢◌, ◌⊎◌, inl, inr,
  Returns, Returns-mono, for_range, for_range-Returns, eq→==,
}
use petace_verse.Common.Bits.{bit}
use petace_verse.Util.Memory.{Block, IsBlock, bit_at}
use petace_verse.Util.Transpose.{tile, matrix_transpose}
use petace_verse.Util.Transpose.Tile.{Filled, Filled-mono, tile-Filled}

module _ (input : List Block) (R C : ℕ) (small : 128 * R * (128 * C) < 2 ^ 64)
    (fits : 128 * (R * C) ≤ length input) where
  -- The loop over the columns of one row of tiles.
  row_of_tiles-Filled :
      (a : ℕ) (out : List Block)
      → 16 * a + 16 ≤ 128 * R
      → Filled input R C (λ x y. x < 16 * a) out
      → Returns
          (Filled input R C (λ x y. x < 16 * (a + 1)))
          (for_range (128 * C / 8) 0 (λ b. tile input (128 * R) (128 * C) (16 * a) (8 * b)) out)
  row_of_tiles-Filled a out p w =
      Returns-mono (Sofar (16 * C)) _ _
        (for_range-Returns Sofar _ (128 * C / 8) 0 (16 * C) out (omega arith)
          (λ b t _ hb h.
            tile-Filled input R C _ _ a b t fits small p (omega arith) (λ x y s. split b x y s) h)
          (Filled-mono input R C _ _ out (λ x y _ _ s. first x y s) w))
        λ t h. Filled-mono input R C _ _ t (λ x y _ py s. last x y py s) h
    where
      Done : ℕ → ℕ → ℕ → Type 0
      Done b x y = (x < 16 * a) ⊎ ((x < 16 * a + 16) × (y < 8 * b))

      Sofar : ℕ → List Block → Type 0
      Sofar b = Filled input R C (Done b)

      first : (x y : ℕ) → Done 0 x y → x < 16 * a
      first x y s = omega arith

      split :
          (b x y : ℕ)
          → Done (b + 1) x y
          → Done b x y ⊎ ((16 * a ≤ x) × (x < 16 * a + 16) × (8 * b ≤ y) × (y < 8 * b + 8))
      split b x y (inl s) = inl (inl s)
      split b x y (inr (s, r)) = elim (dec_lt x (16 * a)) [
        | yes h ↦ inl (inl h)
        | no h ↦ elim (dec_lt y (8 * b)) [
          | yes k ↦ inl (inr (s, k))
          | no k ↦ inr (omega arith, s, omega arith, omega arith)
        ]
      ]

      last : (x y : ℕ) → y < 128 * C → x < 16 * (a + 1) → Done (16 * C) x y
      last x y py s = inr (omega arith, omega arith)

  transpose_loops :
      (out : List Block)
      → length out ≡ 128 * (R * C)
      → All IsBlock out
      → Returns (Filled input R C (λ x y. x < 128 * R)) (
          for_range
            (128 * R / 16)
            0
            (λ a. for_range (128 * C / 8) 0 (λ b. tile input (128 * R) (128 * C) (16 * a) (8 * b)))
            out)
  transpose_loops out e blocks =
      Returns-mono (λ t. Filled input R C (λ x y. x < 16 * (8 * R)) t) _ _
        (for_range-Returns (λ a t. Filled input R C (λ x y. x < 16 * a) t) _ (128 * R / 16) 0
          (8 * R) out (omega arith) (λ a t _ ha h. row_of_tiles-Filled a t (omega arith) h)
          (record { same_length = e; blocks = blocks; cells = λ x y _ _ s. absurd (omega arith) }))
        λ t h. Filled-mono input R C _ _ t (λ x y _ _ s. omega arith) h

-- The result is the transpose of the input: a vector of blocks of the length of `out` whose bit
-- (y, x) is bit (x, y) of the input.
pub record IsTransposed (input : List Block) (rows cols : ℕ) (out : List Block) : Type 0 where
  pub same_length : length out ≡ rows * cols / 128
  pub blocks : All IsBlock out
  pub cells :
      (x y : ℕ) → x < rows → y < cols → bit_at out (y * rows + x) ≡ bit_at input (x * cols + y)

transpose_multiples :
    (input : List Block) (R C : ℕ) (out : List Block)
    → 128 * R * (128 * C) < 2 ^ 64
    → 128 * (R * C) ≤ length input
    → length out ≡ 128 * (R * C)
    → All IsBlock out
    → Returns
        (IsTransposed input (128 * R) (128 * C))
        (matrix_transpose input (128 * R) (128 * C) out)
unfolding matrix_transpose
transpose_multiples input R C out small fits size blocks =
    rw (eq→== (128 * R % 128) 0 (omega arith), eq→== (128 * C % 128) 0 (omega arith))
      (Returns-mono (Filled input R C (λ x y. x < 128 * R)) (IsTransposed input (128 * R) (128 * C))
        _ (transpose_loops input R C small fits out size blocks)
        λ t w. record {
          same_length = omega (arith, w.same_length);
          blocks = w.blocks;
          cells = λ x y p q. w.cells x y p q p;
        })

-- For sizes that are multiples of 128 with fewer than 2^64 bits in all, and vectors that hold the
-- matrices, `matrix_transpose` returns the transposed matrix, whatever `out` held.
pub matrix_transpose-IsTransposed :
    (input : List Block) (rows cols : ℕ) (out : List Block)
    → rows % 128 ≡ 0
    → cols % 128 ≡ 0
    → rows * cols < 2 ^ 64
    → rows * cols / 128 ≤ length input
    → length out ≡ rows * cols / 128
    → All IsBlock out
    → Returns (IsTransposed input rows cols) (matrix_transpose input rows cols out)
matrix_transpose-IsTransposed input rows cols out hr hc small fits size blocks =
    let er : rows ≡ 128 * (rows / 128) = omega arith in
    let ec : cols ≡ 128 * (cols / 128) = omega arith in
    let small' = rw (er, ec) at small in
    let fits' = rw (er, ec) at fits in
    let size' = rw (er, ec) at size in
    rw (er, ec)
      (transpose_multiples input (rows / 128) (cols / 128) out small' (omega arith) (omega arith)
        blocks)

-- Sizes that are not multiples of 128 are refused.
pub matrix_transpose_refuses :
    (input : List Block) (rows cols : ℕ) (out : List Block)
    → (rows % 128 ≢ 0) ⊎ (cols % 128 ≢ 0)
    → matrix_transpose input rows cols out ≡ err transpose_size
unfolding matrix_transpose
matrix_transpose_refuses input rows cols out h = ground arith

-- Bit `x` of entry `y` of a vector.
pub bit_at-cell :
    (v : List Block) (x y : ℕ) → x < 128 → bit_at v (y * 128 + x) ≡ bit (get_or v y 0) x
bit_at-cell v x y h =
    let e : (y * 128 + x) / 128 ≡ y = omega arith in
    let f : (y * 128 + x) % 128 ≡ x = omega arith in rw (e, f) refl

All-replicate : (n : ℕ) → All IsBlock (replicate n 0)
All-replicate zero = tt
All-replicate (suc n) = (omega arith, All-replicate n)

-- An output vector for squares, whatever it holds.
abbrev pub IsOutput : List Block → Type 0
IsOutput out = (length out ≡ 128) × All IsBlock out

pub zeros-IsOutput : IsOutput (replicate 128 0)
zeros-IsOutput = (length-replicate {A = Block} 128 0, All-replicate 128)

-- A square of 128 by 128 bits: bit `y` of entry `x` of the result is bit `x` of entry `y`.
pub square_transposed :
    (input out : List Block)
    → length input ≡ 128
    → IsOutput out
    → (res : List Block) × (matrix_transpose input 128 128 out ≡ ok res)
      × (length res ≡ 128)
      × All IsBlock res
      × ((x y : ℕ) → x < 128 → y < 128 → bit (get_or res x 0) y ≡ bit (get_or input y 0) x)
square_transposed input out e o =
    let r = Returns-value (IsTransposed input 128 128) _ (
      matrix_transpose-IsTransposed input 128 128 out (omega arith) (omega arith) (omega arith)
        (omega arith) o.0 o.1) in
    (
      r.0,
      r.1,
      r.2.same_length,
      r.2.blocks,
      λ x y px py. sym (bit_at-cell r.0 y x py) ∙ r.2.cells y x py px ∙ bit_at-cell input x y px,
    )
