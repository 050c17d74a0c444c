-- ===== src/Iknp/SenderRow.antt =====
-- One row of the sender, against the row of the receiver that it belongs to.
use petace_verse.Common.{
  ℕ, suc, ◌+◌, ◌*◌, ◌≤◌, ◌<◌, bit_xor, List, ok, ◌==◌, if◌then◌else◌, length, get_or, ◌≡◌, refl, ap,
  ◌∙◌, Bool-cases, inl, inr,
}
use petace_verse.Common.Bits.{xor_masked}
use petace_verse.Util.Memory.{Block}
use petace_verse.Crypto.{Crypto, generate_blocks, length-generate_blocks}
use petace_verse.Iknp.Matrix.{add_row}
use petace_verse.Iknp.Row.{add_row_lem}

module _ (c : Crypto) where
  -- One row of the sender, against the row of the receiver that it belongs to.
  pub sender_row :
      (cols i b : ℕ) (p q0 q1 : c.Prng) (choices sent recv : List Block)
      → p ≡ (if b == 0 then q0 else q1)
      → suc i * cols ≤ length recv
      → ((k : ℕ) → k < cols → get_or recv (i * cols + k) 0 ≡ get_or sent k 0)
      → ((k : ℕ)
          → k < cols
          → get_or sent k 0
            ≡ bit_xor
                (bit_xor
                  (get_or (generate_blocks c q0 cols).0 k 0)
                  (get_or (generate_blocks c q1 cols).0 k 0))
                (get_or choices k 0))
      → (row : List Block) × ((if b == 0
            then ok (generate_blocks c p cols).0
            else add_row cols i (generate_blocks c p cols).0 recv)
          ≡ ok row)
        × (length row ≡ cols)
        × ((generate_blocks c p cols).1
            ≡ (if b == 0 then (generate_blocks c q0 cols).1 else (generate_blocks c q1 cols).1))
        × ((k : ℕ)
            → k < cols
            → get_or row k 0 ≡ (
                if b == 0
                then get_or (generate_blocks c q0 cols).0 k 0
                else bit_xor (get_or (generate_blocks c q0 cols).0 k 0) (get_or choices k 0)))
  sender_row cols i b p q0 q1 choices sent recv e h same masks = elim (Bool-cases (b == 0)) [
    | inl z ↦
        let e' : p ≡ q0 = rw z at e in
        rw (z, e')
          (
            (generate_blocks c q0 cols).0,
            refl,
            length-generate_blocks c q0 cols,
            refl,
            λ k lt. refl,
          )
    | inr z ↦
        let e' : p ≡ q1 = rw z at e in
        let r =
          add_row_lem cols i (generate_blocks c q1 cols).0 recv (length-generate_blocks c q1 cols)
            h in
        rw (z, e')
          (
            r.0,
            r.1,
            r.2,
            refl,
            λ k lt.
                r.3 k lt
                ∙ ap (bit_xor (get_or (generate_blocks c q1 cols).0 k 0)) (same k lt ∙ masks k lt)
                ∙ xor_masked (get_or (generate_blocks c q0 cols).0 k 0)
                    (get_or (generate_blocks c q1 cols).0 k 0) (get_or choices k 0),
          )
  ]
