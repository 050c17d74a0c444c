-- ===== src/Kkrt/Wire.antt =====
-- The matrix on the wire: the receiver's masked rows, flattened, and what the sender makes of them.
use mathlib.Core.List.{flatten}
use petace_verse.Common.{
  ℕ, suc, ◌+◌, ◌*◌, ◌<◌, bit_xor, List, [], ◌∷◌, ok, ltb, if◌then◌else◌, build, build_entries,
  length, get_or, All, All-get_or, All-append, All-of_get_or, load-get_or, ◌≡◌, refl, ap, ◌∙◌,
  arith, Bool-cases, inl, inr,
}
use petace_verse.Common.Flatten.{length-flatten, get_or-flatten}
use petace_verse.Common.Bits.{bit_xor-lt}
use petace_verse.Util.Memory.{Block, IsBlock, set_epi64x}
use petace_verse.Crypto.{Crypto, IsCrypto, hash_block, hash_block-IsBlock}
use petace_verse.Kkrt.Matrix.{masked_entry, row_mat}
use petace_verse.Kkrt.Squares.{IsRows}

All-flatten :
    (rows : List (List Block))
    → ((i : ℕ) → i < length rows → All IsBlock (get_or rows i []))
    → All IsBlock (flatten rows)
unfolding flatten
All-flatten [] h = tt
All-flatten (row ∷ rows) h =
    All-append IsBlock row (flatten rows) (h 0 (omega arith))
      (All-flatten rows (λ i lt. h (suc i) (omega arith)))

module _ (c : Crypto) where
  -- What the receiver sends at (i, j), by its rows `a` and `b`.
  abbrev pub masked : List Block → ℕ → ℕ → Block → Block → Block
  masked choices i j a b =
      if ltb i (length choices)
      then bit_xor (hash_block c (bit_xor (get_or choices i 0) (set_epi64x 0 j)))
          (bit_xor (bit_xor a b) (get_or choices i 0))
      else bit_xor (hash_block c (set_epi64x 0 j)) (bit_xor a b)

  masked-IsBlock :
      (choices : List Block) (i j : ℕ) (a b : Block)
      → IsCrypto c
      → All IsBlock choices
      → IsBlock a
      → IsBlock b
      → IsBlock (masked choices i j a b)
  masked-IsBlock choices i j a b w blocks ha hb = elim (Bool-cases (ltb i (length choices))) [
    | inl z ↦ rw z (
        bit_xor-lt 128 _ _ (hash_block-IsBlock c w _) (
          bit_xor-lt 128 _ _ (bit_xor-lt 128 a b ha hb)
            (All-get_or IsBlock choices i 0 blocks (ground arith))))
    | inr z ↦ rw z (bit_xor-lt 128 _ _ (hash_block-IsBlock c w _) (bit_xor-lt 128 a b ha hb))
  ]

  masked_entry_lem :
      (choices : List Block) (row0 row1 m0 m1 : List (List Block)) (ext threshhold i j : ℕ)
      → IsRows m0 ext threshhold row0
      → IsRows m1 ext threshhold row1
      → i < ext
      → j < threshhold
      → masked_entry c row0 row1 choices i j
        ≡ ok (masked choices i j (get_or (get_or row0 i []) j 0) (get_or (get_or row1 i []) j 0))
  unfolding masked_entry
  masked_entry_lem choices row0 row1 m0 m1 ext threshhold i j h0 h1 hi hj =
      rw
        (
          load-get_or row0 i [] (omega (arith, h0.size)),
          load-get_or (get_or row0 i []) j 0 (omega (arith, h0.width i hi)),
          load-get_or row1 i [] (omega (arith, h1.size)),
          load-get_or (get_or row1 i []) j 0 (omega (arith, h1.width i hi)),
        )
        (elim (Bool-cases (ltb i (length choices))) [
          | inl z ↦ rw (z, load-get_or choices i 0 (ground arith)) refl
          | inr z ↦ rw z refl
        ])

  -- The vector that is sent: `ext * threshhold` blocks, entry (i, j) at `i * threshhold + j`.
  pub row_mat_lem :
      (choices : List Block) (row0 row1 m0 m1 : List (List Block)) (ext threshhold : ℕ)
      → IsCrypto c
      → All IsBlock choices
      → IsRows m0 ext threshhold row0
      → IsRows m1 ext threshhold row1
      → (sent : List Block) × (row_mat c ext threshhold row0 row1 choices ≡ ok sent)
        × (length sent ≡ ext * threshhold)
        × All IsBlock sent
        × ((i j : ℕ)
            → i < ext
            → j < threshhold
            → get_or sent (i * threshhold + j) 0
              ≡ masked choices i j (get_or (get_or row0 i []) j 0) (get_or (get_or row1 i []) j 0))
  unfolding row_mat
  row_mat_lem choices row0 row1 m0 m1 ext threshhold w blocks h0 h1 =
      let rows =
        build_entries []
          (λ i row.
            (length row ≡ threshhold)
            × ((j : ℕ)
                → j < threshhold
                → get_or row j 0
                  ≡ masked choices i j (get_or (get_or row0 i []) j 0)
                      (get_or (get_or row1 i []) j 0)))
          (λ i. build threshhold 0 (masked_entry c row0 row1 choices i)) ext
          (λ i lt.
            let row =
              build_entries 0
                (λ j b.
                  b
                  ≡ masked choices i j (get_or (get_or row0 i []) j 0)
                      (get_or (get_or row1 i []) j 0))
                (masked_entry c row0 row1 choices i) threshhold
                (λ j h.
                  rw (masked_entry_lem choices row0 row1 m0 m1 ext threshhold i j h0 h1 lt h)
                    refl) in
            rw row.1 (row.2, row.3)) in
      let widths = λ (k : ℕ) (p : k < length rows.0). (rows.3 k (omega (arith, rows.2))).0 in
      (
        flatten rows.0,
        rw rows.1 refl,
        length-flatten threshhold rows.0 widths ∙ ap (λ (t : ℕ). t * threshhold) rows.2,
        All-flatten rows.0 (λ i p. All-of_get_or IsBlock (get_or rows.0 i []) 0 (λ j q.
            let hi : i < ext = omega (arith, rows.2) in
            let hj : j < threshhold = omega (arith, widths i p) in
            rw ((rows.3 i hi).1 j hj)
              (masked-IsBlock choices i j _ _ w blocks (h0.block i j hi hj) (h1.block i j hi hj)))),
        λ i j hi hj.
            get_or-flatten threshhold rows.0 i j 0 widths (omega (arith, rows.2)) hj
            ∙ (rows.3 i hi).1 j hj,
      )
