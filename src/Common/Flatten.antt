-- ===== src/Common/Flatten.antt =====
-- Lists of rows of one width, flattened.
use mathlib.Core.List.{flatten}
use petace_verse.Common.{
  ℕ, zero, suc, ◌+◌, ◌*◌, ◌<◌, List, [], ◌∷◌, length, get_or, length-append, get_or-append_left,
  get_or-append_right, ◌≡◌, ◌∙◌, arith,
}

pub length-flatten {ℓ} :
    {A : Type ℓ} (width : ℕ) (rows : List (List A))
    → ((i : ℕ) → i < length rows → length (get_or rows i []) ≡ width)
    → length (flatten rows) ≡ length rows * width
unfolding flatten
length-flatten width [] h = omega arith
length-flatten width (row ∷ rows) h = omega (
  arith,
  length-append row (flatten rows),
  h 0 (omega arith),
  length-flatten width rows (λ i lt. h (suc i) (omega arith)),
)

-- Entry (i, j) stands at `i * width + j` of the flattened rows.
pub get_or-flatten {ℓ} :
    {A : Type ℓ} (width : ℕ) (rows : List (List A)) (i j : ℕ) (d : A)
    → ((k : ℕ) → k < length rows → length (get_or rows k []) ≡ width)
    → i < length rows
    → j < width
    → get_or (flatten rows) (i * width + j) d ≡ get_or (get_or rows i []) j d
unfolding flatten
get_or-flatten width [] i j d h lt hj = absurd (omega arith)
get_or-flatten width (row ∷ rows) zero j d h lt hj =
    let z : 0 * width + j ≡ j = omega arith in
    rw z (get_or-append_left row (flatten rows) j d (omega (arith, h 0 (omega arith))))
get_or-flatten width (row ∷ rows) (suc i) j d h lt hj =
    let z : suc i * width + j ≡ length row + (i * width + j) = omega (arith, h 0 (omega arith)) in
    rw z (
      get_or-append_right row (flatten rows) (i * width + j) d
      ∙ get_or-flatten width rows i j d (λ k p. h (suc k) (omega arith)) (omega arith) hj)
