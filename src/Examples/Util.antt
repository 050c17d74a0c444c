-- ===== src/Examples/Util.antt =====
-- Tests of util/common.h, and its theorems at concrete inputs.
use petace_verse.Common.{
  ◌≤◌, length, ◌<◌, ◌+◌, ◌*◌, ◌>>=◌, load, tabulate, ◌==◌, if◌then◌else◌, ◌^◌, List, [], ◌∷◌, ok,
  fault, replicate, Returns, ◌≡◌, refl, arith,
}
use petace_verse.Util.Memory.{Block, bit_from_blocks, bit_at}
use petace_verse.Util.Memory.Stores.{bit_from_blocks_range}
use petace_verse.Util.Transpose.{matrix_transpose}
use petace_verse.Util.Transpose.Square.{matrix_transpose_twice}
use petace_verse.Util.Transpose.Laws.{IsTransposed, matrix_transpose-IsTransposed}

abbrev two_blocks : List Block
two_blocks = 0x8000_0000_0000_0000_0000_0000_0000_0005 ∷ 2 ∷ []

bit_runs :
    (bit_from_blocks two_blocks 127 ≡ ok 1)
    × (bit_from_blocks two_blocks 129 ≡ ok 1)
    × (bit_from_blocks two_blocks 128 ≡ ok 0)
unfolding bit_from_blocks load
bit_runs = (refl, refl, refl)

abbrev zeros : List Block
zeros = replicate 128 0

bit_from_blocks_range_example :
    (2 < 128 * length two_blocks → bit_from_blocks two_blocks 2 ≡ ok (bit_at two_blocks 2))
    × (128 * length two_blocks ≤ 2 → bit_from_blocks two_blocks 2 ≡ fault)
bit_from_blocks_range_example = bit_from_blocks_range two_blocks 2

-- The unit vector in row 3, column 70 moves to row 70, column 3.
matrix_transpose-IsTransposed_example :
    Returns
      (λ out. IsTransposed (tabulate 128 0 (λ i. if i == 3 then 2 ^ 70 else i)) 128 128 out)
      (matrix_transpose (tabulate 128 0 (λ i. if i == 3 then 2 ^ 70 else i)) 128 128 zeros)
matrix_transpose-IsTransposed_example =
    matrix_transpose-IsTransposed (tabulate 128 0 (λ i. if i == 3 then 2 ^ 70 else i)) 128 128 zeros
      (omega arith) (omega arith) (omega arith) (omega arith) (omega arith) (omega arith)

abbrev ramp : List Block
ramp = tabulate 128 0 (λ i. i * i + 1)

matrix_transpose_twice_example :
    (matrix_transpose ramp 128 128 (replicate 128 0) >>= λ t.
    matrix_transpose t 128 128 (replicate 128 0))
    ≡ ok ramp
matrix_transpose_twice_example = matrix_transpose_twice ramp (omega arith) (omega arith)
