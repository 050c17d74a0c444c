-- ===== src/Util/Transpose/Square.antt =====
-- Squares of 128 by 128 bits: the earlier contents of the output, and two transpositions.
use petace_verse.Common.{
  ℕ, ◌<◌, List, ok, ◌>>=◌, length, get_or, get_or_ext, replicate, All, All-get_or, ◌≡◌, sym, ap,
  ◌∙◌, arith,
}
use petace_verse.Common.Bits.{bit, bit_ext_below}
use petace_verse.Util.Memory.{Block, IsBlock}
use petace_verse.Util.Transpose.{matrix_transpose}
use petace_verse.Util.Transpose.Laws.{square_transposed, zeros-IsOutput}

-- What a square holds after a transposition determines it.
square_unique :
    (a b : List Block)
    → length a ≡ 128
    → length b ≡ 128
    → All IsBlock a
    → All IsBlock b
    → ((x y : ℕ) → x < 128 → y < 128 → bit (get_or a x 0) y ≡ bit (get_or b x 0) y)
    → a ≡ b
square_unique a b ea eb ha hb h = get_or_ext 0 a b (ea ∙ sym eb) λ x lt.
    bit_ext_below 128 _ _ (All-get_or IsBlock a x 0 ha lt)
      (All-get_or IsBlock b x 0 hb (omega arith)) λ y py. h x y (omega arith) py

-- A square is transposed alike whatever the output vector held before.
pub matrix_transpose_overwrites :
    (input out : List Block)
    → length input ≡ 128
    → length out ≡ 128
    → All IsBlock out
    → matrix_transpose input 128 128 out ≡ matrix_transpose input 128 128 (replicate 128 0)
matrix_transpose_overwrites input out e size blocks =
    let fresh = square_transposed input (replicate 128 0) e zeros-IsOutput in
    let used = square_transposed input out e (size, blocks) in
    used.1
    ∙ ap ok (
        square_unique used.0 fresh.0 used.2 fresh.2 used.3 fresh.3
          λ x y px py. used.4 x y px py ∙ sym (fresh.4 x y px py))
    ∙ sym fresh.1

-- Transposing a square twice gives it back.
pub matrix_transpose_twice :
    (input : List Block)
    → length input ≡ 128
    → All IsBlock input
    → (matrix_transpose input 128 128 (replicate 128 0) >>= λ t.
        matrix_transpose t 128 128 (replicate 128 0))
      ≡ ok input
matrix_transpose_twice input e blocks =
    let once = square_transposed input (replicate 128 0) e zeros-IsOutput in
    let again = square_transposed once.0 (replicate 128 0) once.2 zeros-IsOutput in
    rw (once.1, again.1)
      (ap ok (
        square_unique again.0 input again.2 e again.3 blocks
          λ x y px py. again.4 x y px py ∙ once.4 y x py px))
