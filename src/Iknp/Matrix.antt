-- ===== src/Iknp/Matrix.antt =====
-- The loops of iknp_ot_ext.cpp between the calls of the network.
use petace_verse.Common.{
  ℕ, zero, suc, ◌+◌, ◌*◌, ◌/◌, ◌%◌, bit_xor, List, [], ◌∷◌, ◌++◌, Outcome, ok, fault, ◌>>=◌, ◌==◌,
  if◌then◌else◌, load, build, replicate,
}
use petace_verse.Util.Memory.{Block, bit_from_blocks, set_epi64x}
use petace_verse.Util.Transpose.{matrix_transpose}
use petace_verse.Crypto.{Crypto, generate_row, hash_block}

-- `ext_matrix[i * cols + j] ^= recv_matrix[i * cols + j]` over one row.
unfoldable pub add_row : ℕ → ℕ → List Block → List Block → Outcome (List Block)
add_row cols i row recv_matrix =
    build cols 0 λ j. do a ← load row j; b ← load recv_matrix (i * cols + j); ok (bit_xor a b)

-- `t0[i * cols + j] ^ t1[i * cols + j] ^ choices[j]` over one row.
unfoldable pub masked_row : ℕ → List Block → List Block → List Block → Outcome (List Block)
masked_row cols t0 t1 choices =
    build cols 0
      λ j. do a ← load t0 j; b ← load t1 j; r ← load choices j; ok (bit_xor (bit_xor a b) r)

-- One 128-bit column at a time: entry `j` of the input is `matrix[j * cols + i]`.
unfoldable pub transposed_columns : ℕ → ℕ → List Block → Outcome (List (List Block))
transposed_columns rows cols matrix = build cols 0 λ i. do
  input ← build rows 0 (λ j. load matrix (j * cols + i))
  matrix_transpose input rows rows (replicate rows 0)

-- `output[i / rows][i % rows]`; a division by zero is undefined.
unfoldable pub cell : List (List Block) → ℕ → ℕ → Outcome Block
cell output rows i =
    if rows == 0 then fault else (load output (i / rows) >>= λ column. load column (i % rows))

module _ (c : Crypto) where
  -- The sender's loop over `n` rows from row `i` on, with the generators of those rows. Each row is
  -- generated and, if the row's base choice is set, the received row is added. The result is
  -- `ext_matrix`, with the generators after the loop.
  unfoldable pub sender_rows :
      ℕ → List Block → List Block → ℕ → ℕ → List c.Prng → Outcome (List Block × List c.Prng)
  sender_rows cols base_choices recv_matrix zero i prngs = ok ([], prngs)
  sender_rows cols base_choices recv_matrix (suc n) i [] = fault
  sender_rows cols base_choices recv_matrix (suc n) i (p ∷ prngs) = do
    generated ← generate_row c p cols
    bit ← bit_from_blocks base_choices i
    row ← (if bit == 0 then ok generated.0 else add_row cols i generated.0 recv_matrix)
    rest ← sender_rows cols base_choices recv_matrix n (i + 1) prngs
    ok (row ++ rest.0, generated.1 ∷ rest.1)

  -- The receiver's loop: `t0`, `send_matrix` and the generators after it.
  unfoldable pub receiver_rows :
      ℕ
      → List Block
      → ℕ
      → List (c.Prng × c.Prng)
      → Outcome (List Block × List Block × List (c.Prng × c.Prng))
  receiver_rows cols choices zero prngs = ok ([], [], prngs)
  receiver_rows cols choices (suc n) [] = fault
  receiver_rows cols choices (suc n) ((p, q) ∷ prngs) = do
    t0 ← generate_row c p cols
    t1 ← generate_row c q cols
    row ← masked_row cols t0.0 t1.0 choices
    rest ← receiver_rows cols choices n prngs
    ok (t0.0 ++ rest.0, row ++ rest.1, (t0.1, t1.1) ∷ rest.2)

  -- The sender's last loop: both messages of each transfer. `output[i / rows][i % rows]` is
  -- changed in place and read again by the same round only.
  unfoldable pub sender_messages :
      ℕ → ℕ → List Block → List (List Block) → Outcome (List (Block × Block))
  sender_messages rows ext base_choices output = build ext 0 λ i. do
    q ← cell output rows i
    front ← load base_choices 0
    let q0 = bit_xor q (set_epi64x 0 i)
    let q1 = bit_xor q0 front
    ok (hash_block c q0, hash_block c q1)

  -- The receiver's last loop: the chosen message of each transfer.
  unfoldable pub receiver_messages : ℕ → ℕ → List (List Block) → Outcome (List Block)
  receiver_messages rows ext output =
      build ext 0 λ i. do t ← cell output rows i; ok (hash_block c (bit_xor t (set_epi64x 0 i)))
