-- ===== src/Iknp/Row.antt =====
-- One row of the matrices, and rows stacked on a matrix.
use petace_verse.Common.{
  ℕ, zero, suc, ◌+◌, ◌*◌, ◌≤◌, ◌<◌, bit_xor, List, ◌++◌, ok, length, get_or, load-get_or,
  get_or-append_left, get_or-append_right, ◌≡◌, refl, sym, ap, ◌∙◌, subst₂, arith, build_entries,
}
use petace_verse.Util.Memory.{Block}
use petace_verse.Iknp.Matrix.{add_row, masked_row}

pub add_row_lem :
    (cols i : ℕ) (row recv : List Block)
    → length row ≡ cols
    → suc i * cols ≤ length recv
    → (v : List Block) × (add_row cols i row recv ≡ ok v)
      × (length v ≡ cols)
      × ((k : ℕ)
          → k < cols
          → get_or v k 0 ≡ bit_xor (get_or row k 0) (get_or recv (i * cols + k) 0))
unfolding add_row
add_row_lem cols i row recv e h =
    build_entries 0 (λ k v. v ≡ bit_xor (get_or row k 0) (get_or recv (i * cols + k) 0)) _ cols
      λ k lt.
        rw (load-get_or row k 0 (omega arith), load-get_or recv (i * cols + k) 0 (omega arith)) refl

pub masked_row_lem :
    (cols : ℕ) (t0 t1 choices : List Block)
    → length t0 ≡ cols
    → length t1 ≡ cols
    → cols ≤ length choices
    → (v : List Block) × (masked_row cols t0 t1 choices ≡ ok v)
      × (length v ≡ cols)
      × ((k : ℕ)
          → k < cols
          → get_or v k 0 ≡ bit_xor (bit_xor (get_or t0 k 0) (get_or t1 k 0)) (get_or choices k 0))
unfolding masked_row
masked_row_lem cols t0 t1 choices e f h =
    build_entries 0
      (λ k v. v ≡ bit_xor (bit_xor (get_or t0 k 0) (get_or t1 k 0)) (get_or choices k 0)) _ cols
      λ k lt.
        rw
          (
            load-get_or t0 k 0 (omega arith),
            load-get_or t1 k 0 (omega arith),
            load-get_or choices k 0 (omega arith),
          )
          refl

-- Related entries of two matrices that are each a row on top of another matrix.
pub stacked :
    (P : ℕ → ℕ → Block → Block → Type 0) (row row' m m' : List Block) (n cols : ℕ)
    → length row ≡ cols
    → length row' ≡ cols
    → ((j : ℕ) → j < cols → P 0 j (get_or row j 0) (get_or row' j 0))
    → ((x j : ℕ)
        → x < n
        → j < cols
        → P (suc x) j (get_or m (x * cols + j) 0) (get_or m' (x * cols + j) 0))
    → (x j : ℕ) → x < suc n
    → j < cols
    → P x j (get_or (row ++ m) (x * cols + j) 0) (get_or (row' ++ m') (x * cols + j) 0)
stacked P row row' m m' n cols e e' here below zero j px pj =
    let at : 0 * cols + j ≡ j = omega arith in
    rw
      (at, get_or-append_left row m j 0 (omega arith), get_or-append_left row' m' j 0 (omega arith))
      (here j pj)
stacked P row row' m m' n cols e e' here below (suc x) j px pj =
    let at : suc x * cols + j ≡ length row + (x * cols + j) = omega arith in
    let at' : suc x * cols + j ≡ length row' + (x * cols + j) = omega arith in
    let left =
      ap (λ (t : ℕ). get_or (row ++ m) t 0) at ∙ get_or-append_right row m (x * cols + j) 0 in
    let right =
      ap (λ (t : ℕ). get_or (row' ++ m') t 0) at' ∙ get_or-append_right row' m' (x * cols + j) 0 in
    subst₂ (P (suc x) j) (sym left) (sym right) (below x j (omega arith) pj)
