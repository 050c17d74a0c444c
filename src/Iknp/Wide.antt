-- ===== src/Iknp/Wide.antt =====
-- The receiver with more than 128 base transfers, which only the sender refuses.
use petace_verse.Common.{
  ℕ, zero, suc, ◌+◌, ◌*◌, ◌/◌, ◌%◌, ◌^◌, ◌<◌, ◌≡◌, refl, arith, List, [], ◌∷◌, length, Outcome,
  fault, load, build, ◌==◌, true, eq→==, Bool-cases, inl, inr, replicate, All,
}
use petace_verse.Common.Holds.{build-Holds, whatever}
use petace_verse.Common.Faults.{
  IsUnthrown, IsUnthrown-then, load-IsUnthrown, build-IsUnthrown, then-fault,
}
use petace_verse.Util.Memory.{Block}
use petace_verse.Util.Transpose.{matrix_transpose}
use petace_verse.Util.Transpose.TooSmall.{matrix_transpose_faults}
use petace_verse.Crypto.{Crypto, generate_row}
use petace_verse.Net.Crashes.{Crashes, lift-Crashes, fault-Crashes, send_block-Crashes}
use petace_verse.Iknp.{IknpOtExtReceiver, receive}
use petace_verse.Iknp.Matrix.{masked_row, receiver_rows, transposed_columns}

masked_row-IsUnthrown :
    (cols : ℕ) (t0 t1 choices : List Block) → IsUnthrown (masked_row cols t0 t1 choices)
unfolding masked_row
masked_row-IsUnthrown cols t0 t1 choices = build-IsUnthrown _ cols 0 λ j.
    IsUnthrown-then (load t0 j) _ (load-IsUnthrown t0 j) λ a.
      IsUnthrown-then (load t1 j) _ (load-IsUnthrown t1 j)
        λ b. IsUnthrown-then (load choices j) _ (load-IsUnthrown choices j) λ r. tt

columns-fault :
    (rows cols : ℕ) (matrix : List Block)
    → rows % 128 ≡ 0
    → 128 < rows
    → rows * 128 < 2 ^ 64
    → 0 < cols
    → transposed_columns rows cols matrix ≡ fault
unfolding transposed_columns build
columns-fault rows zero matrix whole wide small some = absurd (omega arith)
columns-fault rows (suc cols) matrix whole wide small some =
    let column : ℕ → Outcome Block = λ j. load matrix (j * suc cols + 0) in
    rw
      (then-fault
        (λ (input : List Block). (length input ≡ rows) × All (λ (b : Block). Unit {0}) input)
        (build rows 0 column) (λ input. matrix_transpose input rows rows (replicate rows 0))
        (build-IsUnthrown column rows 0 (λ j. load-IsUnthrown matrix (j * suc cols + 0)))
        (build-Holds (λ (b : Block). Unit {0}) column rows 0 (λ j. whatever (column j)))
        (λ input q. matrix_transpose_faults input rows q.0 whole wide small (replicate rows 0)))
      refl

module _ (c : Crypto) where
  generate_row-IsUnthrown : (p : c.Prng) (n : ℕ) → IsUnthrown (generate_row c p n)
  unfolding generate_row
  generate_row-IsUnthrown p n = elim (Bool-cases (n == 0)) [ inl z ↦ rw z tt | inr z ↦ rw z tt ]

  receiver_rows-IsUnthrown :
      (cols : ℕ) (choices : List Block) (n : ℕ) (prngs : List (c.Prng × c.Prng))
      → IsUnthrown (receiver_rows c cols choices n prngs)
  unfolding receiver_rows
  receiver_rows-IsUnthrown cols choices zero prngs = tt
  receiver_rows-IsUnthrown cols choices (suc n) [] = tt
  receiver_rows-IsUnthrown cols choices (suc n) ((p, q) ∷ prngs) =
      IsUnthrown-then (generate_row c p cols) _ (generate_row-IsUnthrown p cols) λ t0.
        IsUnthrown-then (generate_row c q cols) _ (generate_row-IsUnthrown q cols) λ t1.
          IsUnthrown-then (masked_row cols t0.0 t1.0 choices) _
            (masked_row-IsUnthrown cols t0.0 t1.0 choices)
            λ row.
              IsUnthrown-then (receiver_rows c cols choices n prngs) _
                (receiver_rows-IsUnthrown cols choices n prngs) λ rest. tt

  -- A receiver that was created for more than 128 base transfers, in whole blocks and fewer than
  -- 2^57, and for some blocks of extended ones, throws nothing and returns nothing: it ends in
  -- undefined behaviour, in the transposition if not before.
  pub wide_receiver-Crashes :
      (r : IknpOtExtReceiver c) (choices : List Block)
      → r.base_ot_sizes % 128 ≡ 0
      → 128 < r.base_ot_sizes
      → r.base_ot_sizes * 128 < 2 ^ 64
      → r.ext_ot_sizes % 128 ≡ 0
      → 0 < r.ext_ot_sizes
      → Crashes (receive c r choices)
  unfolding receive
  wide_receiver-Crashes r choices whole wide small whole' some =
      let rows = r.base_ot_sizes in
      let cols = r.ext_ot_sizes / 128 in
      let base : (r.base_ot_sizes % 128 == 0) ≡ true = eq→== (r.base_ot_sizes % 128) 0 whole in
      let ext : (r.ext_ot_sizes % 128 == 0) ≡ true = eq→== (r.ext_ot_sizes % 128) 0 whole' in
      rw (base, ext)
        (lift-Crashes (receiver_rows c cols choices rows r.prng) _
          (receiver_rows-IsUnthrown cols choices rows r.prng)
          λ t. send_block-Crashes t.1 (rows * cols % 2 ^ 64) _ (
            fault-Crashes (transposed_columns rows cols t.0) _
              (columns-fault rows cols t.0 whole wide small (omega arith))))
