-- ===== src/Kkrt/Squares.antt =====
-- The squares of 128 by 128 bits turned, and put together as rows.
use native.Mathlib.Nat.{mul-le-mul_right}
use petace_verse.Common.{
  ℕ, ◌+◌, ◌*◌, ◌/◌, ◌%◌, ◌≤◌, ◌<◌, List, [], Outcome, ok, ◌>>=◌, load, build, build_with,
  build_entries, length, get_or, All, All-get_or, Returns, load-get_or, ◌≡◌, refl, ap, ◌∙◌, arith,
  build_with_entries,
}
use petace_verse.Common.Bits.{bit}
use petace_verse.Util.Memory.{Block, IsBlock}
use petace_verse.Util.Transpose.{matrix_transpose}
use petace_verse.Util.Transpose.Laws.{IsOutput, square_transposed}
use petace_verse.Kkrt.Matrix.{load_2d, tiles, row_matrix}

-- `square` holds block `i` of rows `j * 128 …` of the matrix, turned.
pub record IsSquare (matrix : List (List Block)) (i j : ℕ) (square : List Block) : Type 0 where
  pub size : length square ≡ 128
  pub blocks : All IsBlock square
  pub cells :
      (x y : ℕ)
      → x < 128
      → y < 128
      → bit (get_or square x 0) y ≡ bit (get_or (get_or matrix (j * 128 + y) []) i 0) x

pub one-IsSquare :
    (i j n cols : ℕ) (matrix : List (List Block)) (output : List Block)
    → j * 128 + 128 ≤ n
    → length matrix ≡ n
    → i < cols
    → ((x : ℕ) → x < n → length (get_or matrix x []) ≡ cols)
    → IsOutput output
    → Returns
        (λ (r : List Block × List Block). IsSquare matrix i j r.0 × IsOutput r.1)
        (build 128 0 (λ k. load_2d matrix (j * 128 + k) i) >>= λ input.
          matrix_transpose input 128 128 output >>= λ output'. ok (output', output'))
one-IsSquare i j n cols matrix output hj e lt widths o =
    let v =
      build_entries 0 (λ k b. b ≡ get_or (get_or matrix (j * 128 + k) []) i 0)
        (λ k. load_2d matrix (j * 128 + k) i) 128
        (λ k h.
          rw
            (
              load-get_or matrix (j * 128 + k) [] (omega arith),
              load-get_or (get_or matrix (j * 128 + k) []) i 0
                  (omega (arith, widths (j * 128 + k) (omega arith))),
            )
            refl) in
    let t = square_transposed v.0 output v.2 o in
    rw (v.1, t.1)
      (
        record {
          size = t.2;
          blocks = t.3;
          cells = λ x y px py. t.4 x y px py ∙ ap (λ (b : ℕ). bit b x) (v.3 y py);
        },
        (t.2, t.3),
      )

-- Entry (r, j) of the rows: block `j` of the turned row `r`.
pub record IsRows (matrix : List (List Block)) (ext threshhold : ℕ) (out : List (List Block))
    : Type 0 where
  pub size : length out ≡ ext
  pub width : (r : ℕ) → r < ext → length (get_or out r []) ≡ threshhold
  pub block : (r j : ℕ) → r < ext → j < threshhold → IsBlock (get_or (get_or out r []) j 0)
  pub cells :
      (r j y : ℕ)
      → r < ext
      → j < threshhold
      → y < 128
      → bit (get_or (get_or out r []) j 0) y
        ≡ bit (get_or (get_or matrix (j * 128 + y) []) (r / 128) 0) (r % 128)

-- Whatever `output` held before, `tiles` followed by `row_matrix` turns a matrix of `threshhold *
-- 128` rows.
pub turned :
    (cols threshhold : ℕ) (matrix : List (List Block)) (output : List Block)
    → length matrix ≡ threshhold * 128
    → ((x : ℕ) → x < threshhold * 128 → length (get_or matrix x []) ≡ cols)
    → IsOutput output
    → (squares : List (List (List Block))) × (last : List Block) × (out : List (List Block))
      × (tiles cols threshhold matrix output ≡ ok (squares, last))
      × IsOutput last
      × (row_matrix (cols * 128) threshhold squares ≡ ok out)
      × IsRows matrix (cols * 128) threshhold out
unfolding tiles row_matrix
turned cols threshhold matrix output e widths o =
    let squares =
      build_with_entries [] IsOutput
        (λ i row.
          (length row ≡ threshhold)
          × ((j : ℕ) → j < threshhold → IsSquare matrix i j (get_or row j [])))
        (λ i. build_with threshhold 0 (square_of i)) cols output
        (λ i used lt here.
          let row =
            build_with_entries [] IsOutput (IsSquare matrix i) (square_of i) threshhold used
              (λ j u h there.
                one-IsSquare i j (threshhold * 128) cols matrix u
                  (omega (arith, mul-le-mul_right 128 h)) e lt widths there)
              here in
          rw row.2 ((row.3, row.4), row.5))
        o in
    let out =
      build_entries []
        (λ r row.
          (length row ≡ threshhold)
          × ((j : ℕ)
              → j < threshhold
              → get_or row j 0 ≡ get_or (get_or (get_or squares.0 (r / 128) []) j []) (r % 128) 0))
        (λ r. build threshhold 0 (entry squares.0 r)) (cols * 128)
        (λ r lt.
          let at : r / 128 < cols = omega arith in
          let row =
            build_entries 0
              (λ j b. b ≡ get_or (get_or (get_or squares.0 (r / 128) []) j []) (r % 128) 0)
              (entry squares.0 r) threshhold
              (λ j h.
                rw
                  (
                    load-get_or squares.0 (r / 128) [] (omega (arith, squares.3)),
                    load-get_or (get_or squares.0 (r / 128) []) j []
                        (omega (arith, (squares.4 (r / 128) at).0)),
                    load-get_or (get_or (get_or squares.0 (r / 128) []) j []) (r % 128) 0
                        (omega (arith, ((squares.4 (r / 128) at).1 j h).size)),
                  )
                  refl) in
          rw row.1 (row.2, row.3)) in
    (
      squares.0,
      squares.1,
      out.0,
      squares.2,
      squares.5,
      out.1,
      record {
        size = out.2;
        width = λ r lt. (out.3 r lt).0;
        block = λ r j lt h.
            let square = (squares.4 (r / 128) (omega arith)).1 j h in
            rw ((out.3 r lt).1 j h)
              (All-get_or IsBlock _ (r % 128) 0 square.blocks (omega (arith, square.size)));
        cells = λ r j y lt h hy.
            let square = (squares.4 (r / 128) (omega arith)).1 j h in
            ap (λ (b : ℕ). bit b y) ((out.3 r lt).1 j h)
            ∙ square.cells (r % 128) y (omega arith) hy;
      },
    )
  where
    square_of : ℕ → ℕ → List Block → Outcome (List Block × List Block)
    square_of i j used = do
      input ← build 128 0 (λ k. load_2d matrix (j * 128 + k) i)
      output' ← matrix_transpose input 128 128 used
      ok (output', output')

    entry : List (List (List Block)) → ℕ → ℕ → Outcome Block
    entry squares r j = load_2d squares (r / 128) j >>= λ square. load square (r % 128)
