-- ===== src/Util/Transpose/TooSmall.antt =====
-- `matrix_transpose` on a vector of as many blocks as the matrix has rows, when it has more columns.
use petace_verse.Common.{
  ℕ, ◌+◌, ◌-◌, ◌*◌, ◌/◌, ◌%◌, ◌^◌, ◌<◌, ◌≡◌, refl, arith, List, length, fault, load, build,
  for_range, eq→==,
}
use petace_verse.Common.Faults.{
  IsUnthrown, IsUnthrown-then, load-IsUnthrown, store-IsUnthrown, build-IsUnthrown,
  for_range-IsUnthrown, for_range-fault,
}
use petace_verse.Util.Memory.{Block, load_byte, store_byte, store_u16}
use petace_verse.Util.Memory.Laws.{load_byte_fault}
use petace_verse.Util.Transpose.{f, store_column, tile, matrix_transpose}

load_byte-IsUnthrown : (mem : List Block) (off : ℕ) → IsUnthrown (load_byte mem off)
unfolding load_byte
load_byte-IsUnthrown mem off =
    IsUnthrown-then (load mem (off / 16)) _ (load-IsUnthrown mem (off / 16)) λ b. tt

store_byte-IsUnthrown : (mem : List Block) (off v : ℕ) → IsUnthrown (store_byte mem off v)
unfolding store_byte
store_byte-IsUnthrown mem off v =
    IsUnthrown-then (load mem (off / 16)) _ (load-IsUnthrown mem (off / 16))
      λ b. store-IsUnthrown mem (off / 16) _

store_u16-IsUnthrown : (mem : List Block) (off v : ℕ) → IsUnthrown (store_u16 mem off v)
unfolding store_u16
store_u16-IsUnthrown mem off v =
    IsUnthrown-then (store_byte mem off (v % 2 ^ 8)) _ (store_byte-IsUnthrown mem off (v % 2 ^ 8))
      λ half. store_byte-IsUnthrown half (off + 1) (v / 2 ^ 8 % 2 ^ 8)

module _ (input : List Block) (rows cols : ℕ) where
  store_column-IsUnthrown :
      (i j k : ℕ) (r : List Block × Block) → IsUnthrown (store_column input rows cols i j k r)
  unfolding store_column
  store_column-IsUnthrown i j k (out, reg) =
      IsUnthrown-then (store_u16 out _ _) _ (store_u16-IsUnthrown out _ _) λ out'. tt

  tile-IsUnthrown : (i j : ℕ) (out : List Block) → IsUnthrown (tile input rows cols i j out)
  unfolding tile
  tile-IsUnthrown i j out =
      IsUnthrown-then (build 16 0 (λ m. f input rows cols (i + m) j)) _
        (build-IsUnthrown (λ m. f input rows cols (i + m) j) 16 0
          (λ m. load_byte-IsUnthrown input _))
        λ bytes.
          IsUnthrown-then (for_range 8 0 (λ t. store_column input rows cols i j (8 - t)) _) _
            (for_range-IsUnthrown (λ t. store_column input rows cols i j (8 - t)) 8 0 _
              (λ k r. store_column-IsUnthrown i j (8 - k) r))
            λ r. tt

-- A square of more than 128 rows and columns, in a vector of one block for each row.
module _ (input : List Block) (n : ℕ) (same : length input ≡ n) (whole : n % 128 ≡ 0)
    (wide : 128 < n) (small : n * 128 < 2 ^ 64) where
  -- The first byte of row 128 lies past the vector.
  tile-fault : (out : List Block) → tile input n n (16 * 8) (8 * 0) out ≡ fault
  unfolding tile build
  tile-fault out =
      let off : 128 * n % 2 ^ 64 ≡ n * 128 = omega arith in
      rw (load_byte_fault input (128 * n % 2 ^ 64 / 8 + 0 / 8) (omega (arith, off))) refl

  pub matrix_transpose_faults : (out : List Block) → matrix_transpose input n n out ≡ fault
  unfolding matrix_transpose
  matrix_transpose_faults out = rw (eq→== (n % 128) 0 whole) (
      for_range-fault (λ a. for_range (n / 8) 0 (λ b. tile input n n (16 * a) (8 * b))) (n / 16) 0 8
        out (omega arith) (omega arith)
        (λ a t.
          for_range-IsUnthrown (λ b. tile input n n (16 * a) (8 * b)) (n / 8) 0 t
            (λ b u. tile-IsUnthrown input n n (16 * a) (8 * b) u))
        (λ t.
          for_range-fault (λ b. tile input n n (16 * 8) (8 * b)) (n / 8) 0 0 t (omega arith)
            (omega arith) (λ b u. tile-IsUnthrown input n n (16 * 8) (8 * b) u) tile-fault))
