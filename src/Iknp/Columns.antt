-- ===== src/Iknp/Columns.antt =====
-- The transposed columns of both parties and the pads that are read from them.
use petace_verse.Common.{
  ℕ, zero, suc, ◌+◌, ◌*◌, ◌/◌, ◌%◌, ◌<◌, bit_xor, List, [], ok, ◌>>=◌, ◌==◌, if◌then◌else◌, load,
  build, build_entries, length, get_or, All, All-get_or, Returns, load-get_or, ◌≡◌, refl, sym, ap,
  ◌∙◌, arith, Bool-cases, inl, inr, replicate, ap₂,
}
use petace_verse.Util.Transpose.Load.{index-lt}
use native.Mathlib.Nat.{mul_comm}
use petace_verse.Common.Bits.{bit, bit-bit_xor, bit-lt-two, bit_ext_below, bit_xor-lt}
use petace_verse.Util.Memory.{Block, IsBlock, bit_at}
use petace_verse.Util.Transpose.{matrix_transpose}
use petace_verse.Util.Transpose.Laws.{square_transposed, zeros-IsOutput}
use petace_verse.Iknp.Matrix.{transposed_columns, cell}

-- `column` is column `k` of the matrix, turned: bit `y` of its entry `x` is bit `x` of row `y`.
pub record IsColumn (cols : ℕ) (matrix : List Block) (k : ℕ) (column : List Block) : Type 0 where
  pub size : length column ≡ 128
  pub blocks : All IsBlock column
  pub cells :
      (x y : ℕ)
      → x < 128
      → y < 128
      → bit (get_or column x 0) y ≡ bit (get_or matrix (y * cols + k) 0) x

one-IsColumn :
    (cols k : ℕ) (matrix : List Block)
    → length matrix ≡ 128 * cols
    → k < cols
    → Returns (IsColumn cols matrix k) (
        build 128 0 (λ j. load matrix (j * cols + k)) >>= λ input.
        matrix_transpose input 128 128 (replicate 128 0))
one-IsColumn cols k matrix e lt =
    let v =
      build_entries 0 (λ j b. b ≡ get_or matrix (j * cols + k) 0) (λ j. load matrix (j * cols + k))
        128
        (λ j h.
          rw (load-get_or matrix (j * cols + k) 0 (rw e (index-lt j k 128 cols h lt))) refl) in
    let t = square_transposed v.0 (replicate 128 0) v.2 zeros-IsOutput in
    rw (v.1, t.1)
      (record {
        size = t.2;
        blocks = t.3;
        cells = λ x y px py. t.4 x y px py ∙ ap (λ (b : ℕ). bit b x) (v.3 y py);
      })

-- With 128 rows every column is turned.
pub transposed_columns_lem :
    (cols : ℕ) (matrix : List Block)
    → length matrix ≡ 128 * cols
    → (out : List (List Block)) × (transposed_columns 128 cols matrix ≡ ok out)
      × (length out ≡ cols)
      × ((k : ℕ) → k < cols → IsColumn cols matrix k (get_or out k []))
unfolding transposed_columns
transposed_columns_lem cols matrix e =
    build_entries [] (IsColumn cols matrix) _ cols (λ k lt. one-IsColumn cols k matrix e lt)

-- The entry that transfer `i` reads.
abbrev pub pad : List (List Block) → ℕ → Block
pad output i = get_or (get_or output (i / 128) []) (i % 128) 0

pub cell-pad :
    (cols : ℕ) (matrix : List Block) (output : List (List Block)) (i : ℕ)
    → length output ≡ cols
    → ((k : ℕ) → k < cols → IsColumn cols matrix k (get_or output k []))
    → i < 128 * cols
    → cell output 128 i ≡ ok (pad output i)
unfolding cell
cell-pad cols matrix output i e h lt = rw (load-get_or output (i / 128) [] (omega arith)) (
    load-get_or (get_or output (i / 128) []) (i % 128) 0
      (omega (arith, (h (i / 128) (omega arith)).size)))

bit_choose :
    (s k a b : ℕ) → s < 2 → bit (if s == 0 then a else bit_xor a b) k ≡ (bit a k + s * bit b k) % 2
bit_choose zero k a b h = omega (arith, bit-lt-two a k)
bit_choose (suc zero) k a b h = omega (arith, bit-bit_xor k a b)
bit_choose (suc (suc s)) k a b h = absurd (omega arith)

choose-IsBlock : (s a b : ℕ) → IsBlock a → IsBlock b → IsBlock (if s == 0 then a else bit_xor a b)
choose-IsBlock s a b p q = elim (Bool-cases (s == 0)) [
  | inl e ↦ rw e p
  | inr e ↦ rw e (bit_xor-lt 128 a b p q)
]

-- Where the rows differ by the choices at the set base choices, the turned columns differ by the
-- base choices at the set choices.
pub pads_agree :
    (cols k : ℕ) (ext t0 choices base_choices columnE columnT : List Block)
    → IsColumn cols ext k columnE
    → IsColumn cols t0 k columnT
    → IsBlock (get_or base_choices 0 0)
    → ((y : ℕ)
        → y < 128
        → get_or ext (y * cols + k) 0 ≡ (
            if bit_at base_choices y == 0
            then get_or t0 (y * cols + k) 0
            else bit_xor (get_or t0 (y * cols + k) 0) (get_or choices k 0)))
    → (x : ℕ) → x < 128
    → get_or columnE x 0 ≡ (
        if bit (get_or choices k 0) x == 0
        then get_or columnT x 0
        else bit_xor (get_or columnT x 0) (get_or base_choices 0 0))
pads_agree cols k ext t0 choices base_choices columnE columnT he ht hb rows x px =
    bit_ext_below 128 _ _ (All-get_or IsBlock columnE x 0 he.blocks (omega (arith, he.size)))
      (choose-IsBlock _ _ _ (All-get_or IsBlock columnT x 0 ht.blocks (omega (arith, ht.size))) hb)
      λ y py.
        let sy : ℕ = bit_at base_choices y in
        let front : sy ≡ bit (get_or base_choices 0 0) y =
          let d : y / 128 ≡ 0 = omega arith in
          let m : y % 128 ≡ y = omega arith in rw (d, m) refl in
        let left =
          he.cells x y px py
          ∙ ap (λ (b : ℕ). bit b x) (rows y py)
          ∙ bit_choose sy x (get_or t0 (y * cols + k) 0) (get_or choices k 0) (bit-lt-two _ _) in
        let right =
          bit_choose (bit (get_or choices k 0) x) y (get_or columnT x 0) (get_or base_choices 0 0)
            (bit-lt-two _ _) in
        left
        ∙ ap₂ (λ (u v : ℕ). (u + v) % 2) (sym (ht.cells x y px py))
            (ap (λ (u : ℕ). u * bit (get_or choices k 0) x) front ∙ mul_comm _ _)
        ∙ sym right
