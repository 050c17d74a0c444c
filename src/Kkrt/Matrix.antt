-- ===== src/Kkrt/Matrix.antt =====
-- The loops of kkrt_nco_ot_ext.cpp between the calls of the network.
use mathlib.Core.List.{flatten}
use petace_verse.Common.{
  ℕ, zero, suc, ◌+◌, ◌*◌, ◌/◌, ◌%◌, bit_and, bit_xor, List, [], ◌∷◌, Outcome, ok, fault, ◌>>=◌, ltb,
  if◌then◌else◌, load, build, for_range, build_with, length,
}
use petace_verse.Util.Memory.{Block, set_epi64x}
use petace_verse.Util.Transpose.{matrix_transpose}
use petace_verse.Crypto.{Crypto, generate_row, hash_block}

-- `matrix[a][b]`
abbrev pub load_2d {ℓ} : {A : Type ℓ} → List (List A) → ℕ → ℕ → Outcome A
load_2d matrix a b = load matrix a >>= λ row. load row b

-- The transposed squares, and the one `output` that all of them pass through: entry (i, j) is the
-- transpose of rows `j * 128 …` at block `i`.
unfoldable pub tiles :
    ℕ → ℕ → List (List Block) → List Block → Outcome (List (List (List Block)) × List Block)
tiles cols threshhold matrix = build_with cols 0 λ i. build_with threshhold 0 λ j output. do
  input ← build 128 0 (λ k. load_2d matrix (j * 128 + k) i)
  output' ← matrix_transpose input 128 128 output
  ok (output', output')

-- The squares as rows: entry (i * 128 + k, j) is entry `k` of square (i, j).
unfoldable pub row_matrix : ℕ → ℕ → List (List (List Block)) → Outcome (List (List Block))
row_matrix ext threshhold squares =
    build ext 0
      λ r. build threshhold 0 λ j. do square ← load_2d squares (r / 128) j; load square (r % 128)

module _ (c : Crypto) where
  -- `prng_[i]->generate` for `n` rows of `cols` blocks, and the generators after it.
  unfoldable pub generate_rows : ℕ → ℕ → List c.Prng → Outcome (List (List Block) × List c.Prng)
  generate_rows cols zero prngs = ok ([], prngs)
  generate_rows cols (suc n) [] = fault
  generate_rows cols (suc n) (p ∷ prngs) = do
    generated ← generate_row c p cols
    rest ← generate_rows cols n prngs
    ok (generated.0 ∷ rest.0, generated.1 ∷ rest.1)

  -- The receiver's: `t0`, `t1` and the generators.
  unfoldable pub generate_row_pairs :
      ℕ
      → ℕ
      → List (c.Prng × c.Prng)
      → Outcome (List (List Block) × List (List Block) × List (c.Prng × c.Prng))
  generate_row_pairs cols zero prngs = ok ([], [], prngs)
  generate_row_pairs cols (suc n) [] = fault
  generate_row_pairs cols (suc n) ((p, q) ∷ prngs) = do
    g0 ← generate_row c p cols
    g1 ← generate_row c q cols
    rest ← generate_row_pairs cols n prngs
    ok (g0.0 ∷ rest.0, g1.0 ∷ rest.1, (g0.1, g1.1) ∷ rest.2)

  -- The sender's `q_mat`: the turned rows, with the received ones added under the base choices.
  unfoldable pub q_matrix :
      ℕ → ℕ → List Block → List Block → List (List Block) → Outcome (List (List Block))
  q_matrix ext threshhold base_choices recv_matrix rows = build ext 0 λ r. build threshhold 0 λ j.
      do
        q ← load_2d rows r j
        u ← load recv_matrix (r * threshhold + j)
        s ← load base_choices j
        ok (bit_xor q (bit_and u s))

  -- Entry (i, j) of the receiver's `row_mat`: past the choices a choice of zero stands in.
  unfoldable pub masked_entry :
      List (List Block) → List (List Block) → List Block → ℕ → ℕ → Outcome Block
  masked_entry row_mat0 row_mat1 choices i j = do
    a ← load_2d row_mat0 i j
    b ← load_2d row_mat1 i j
    (if ltb i (length choices)
        then (load choices i >>= λ choice. ok (
            bit_xor (hash_block c (bit_xor choice (set_epi64x 0 j)))
              (bit_xor (bit_xor a b) choice)))
        else ok (bit_xor (hash_block c (set_epi64x 0 j)) (bit_xor a b)))

  unfoldable pub row_mat :
      ℕ → ℕ → List (List Block) → List (List Block) → List Block → Outcome (List Block)
  row_mat ext threshhold row_mat0 row_mat1 choices = do
    rows ← build ext 0 (λ i. build threshhold 0 (masked_entry row_mat0 row_mat1 choices i))
    ok (flatten rows)

  -- The hash chain of transfer `i` over one row, on both sides.
  unfoldable pub chain : ℕ → ℕ → (ℕ → Outcome Block) → Outcome Block
  chain threshhold i entry =
      for_range threshhold 0
        (λ j acc. do e ← entry j; ok (hash_block c (bit_xor acc (bit_xor e (set_epi64x 0 i)))))
        (set_epi64x 0 0)

  -- The receiver's messages, one for each choice.
  unfoldable pub receiver_messages : ℕ → ℕ → List (List Block) → Outcome (List Block)
  receiver_messages n threshhold row_mat0 = build n 0 (λ i. chain threshhold i (load_2d row_mat0 i))

  -- The sender's masked input of `encode`.
  unfoldable pub encoded_input : ℕ → List Block → Block → Outcome (List Block)
  encoded_input threshhold base_choices input = build threshhold 0 λ j. do
    s ← load base_choices j
    ok (bit_and s (bit_xor (hash_block c (bit_xor input (set_epi64x 0 j))) input))
