-- ===== src/Util/Transpose.antt =====
-- `matrix_transpose` of util/common.h, with the SSE2 instructions that it is written in.
pub mod Simd
pub mod Load
pub mod Tile
pub mod Laws
pub mod Square
pub mod TooSmall
use petace_verse.Common.{
  ℕ, zero, suc, ◌+◌, ◌-◌, ◌*◌, ◌/◌, ◌%◌, ◌^◌, List, [], ◌∷◌, Outcome, ok, err, transpose_size,
  ◌>>=◌, for_range, build, ◌==◌, ◌||◌, not, if◌then◌else◌,
}
use petace_verse.Common.Bits.{bit}
use petace_verse.Util.Memory.{Block, load_byte, store_u16}

-- `_mm_set_epi8`, its arguments from the last to the first: the lowest byte comes first.
unfoldable pub set_epi8 : List ℕ → Block
set_epi8 [] = 0
set_epi8 (b ∷ bs) = set_epi8 bs * 2 ^ 8 + b

-- The top bits of the bytes `m`, `m + 1`, … of a register, lowest first.
unfoldable pub movemask_from : ℕ → ℕ → Block → ℕ
movemask_from zero m d = 0
movemask_from (suc n) m d = movemask_from n (m + 1) d * 2 ^ 1 + bit d (8 * m + 7)

-- `_mm_movemask_epi8`
unfoldable pub movemask_epi8 : Block → ℕ
unfolding movemask_from
movemask_epi8 d = movemask_from 16 0 d

-- `_mm_slli_epi64(d, 1)`: both 64-bit lanes are shifted on their own.
unfoldable pub slli_epi64 : Block → Block
slli_epi64 d = d / 2 ^ 64 * 2 % 2 ^ 64 * 2 ^ 64 + d % 2 ^ 64 * 2 % 2 ^ 64

module _ (input : List Block) (rows cols : ℕ) where
  -- The lambdas `f` (a load) and `g` (an offset), whose products wrap at 64 bits.
  abbrev pub f : ℕ → ℕ → Outcome ℕ
  f x y = load_byte input (x * cols % 2 ^ 64 / 8 + y / 8)

  abbrev pub g : ℕ → ℕ → ℕ
  g x y = y * rows % 2 ^ 64 / 8 + x / 8

  -- One round of the innermost loop, at `k`: a column of 16 bits is stored, the register shifted.
  unfoldable pub store_column : ℕ → ℕ → ℕ → List Block × Block → Outcome (List Block × Block)
  store_column i j k (out, reg) = do
    out' ← store_u16 out (g i (j + k - 1)) (movemask_epi8 reg % 2 ^ 16)
    ok (out', slli_epi64 reg)

  -- The body of the two outer loops: `k` runs from 8 down to 1.
  unfoldable pub tile : ℕ → ℕ → List Block → Outcome (List Block)
  unfolding store_column
  tile i j out = do
    bytes ← build 16 0 (λ m. f (i + m) j)
    r ← for_range 8 0 (λ t. store_column i j (8 - t)) (out, set_epi8 bytes)
    ok r.0

-- `i` runs through the multiples of 16 below `rows`, `j` through those of 8 below `cols`.
unfoldable pub matrix_transpose : List Block → ℕ → ℕ → List Block → Outcome (List Block)
unfolding tile for_range build
matrix_transpose input rows cols out =
    if not (rows % 128 == 0) || not (cols % 128 == 0)
    then err transpose_size
    else for_range (rows / 16) 0
        (λ a. for_range (cols / 8) 0 (λ b. tile input rows cols (16 * a) (8 * b))) out
