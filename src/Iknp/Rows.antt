-- ===== src/Iknp/Rows.antt =====
-- The matrices of the two parties, row by row, the sender's against the receiver's.
use petace_verse.Common.{
  ℕ, zero, suc, ◌+◌, ◌*◌, ◌≤◌, ◌<◌, bit_xor, List, [], ◌∷◌, ◌++◌, ok, ◌==◌, if◌then◌else◌, length,
  get_or, All, All-get_or, length-append, get_or-append_left, get_or-append_right, ◌≡◌, refl, ap,
  ◌∙◌, arith, All-of_get_or, All-append,
}
use petace_verse.Common.Bits.{bit_xor-lt}
use petace_verse.Util.Memory.{Block, IsBlock, bit_at}
use petace_verse.Util.Memory.Stores.{bit_from_blocks_lem}
use petace_verse.Crypto.{
  Crypto, IsCrypto, generate_row-eq, generate_blocks, generate_blocks-IsBlock,
  length-generate_blocks,
}
use petace_verse.Pairing.{Paired}
use petace_verse.Iknp.Matrix.{add_row, masked_row, sender_rows, receiver_rows}
use petace_verse.Iknp.Row.{masked_row_lem, stacked}
use petace_verse.Iknp.SenderRow.{sender_row}

module _ (c : Crypto) where
  -- What both loops return over `n` rows from row `i` on.
  pub record RowsAgree (base_choices choices : List Block) (cols n i : ℕ) (ps : List c.Prng)
      (qs : List (c.Prng × c.Prng)) : Type 0 where
    pub t0 : List Block
    pub sent : List Block
    pub after : List (c.Prng × c.Prng)
    pub received : receiver_rows c cols choices n qs ≡ ok (t0, sent, after)
    pub length_t0 : length t0 ≡ n * cols
    pub length_sent : length sent ≡ n * cols
    pub blocks_t0 : All IsBlock t0
    pub blocks_sent : All IsBlock sent
    pub sends :
        (recv : List Block)
        → (i + n) * cols ≤ length recv
        → ((k : ℕ) → k < n * cols → get_or recv (i * cols + k) 0 ≡ get_or sent k 0)
        → (ext : List Block) × (ps' : List c.Prng) × (sender_rows c cols base_choices recv n i ps
            ≡ ok (ext, ps'))
          × Paired c base_choices i ps' after
          × (length ps' ≡ length ps)
          × (length ext ≡ n * cols)
          × ((x j : ℕ)
              → x < n
              → j < cols
              → get_or ext (x * cols + j) 0 ≡ (
                  if bit_at base_choices (i + x) == 0
                  then get_or t0 (x * cols + j) 0
                  else bit_xor (get_or t0 (x * cols + j) 0) (get_or choices j 0)))

  rows_zero :
      (base_choices choices : List Block) (cols i : ℕ) (ps : List c.Prng)
      (qs : List (c.Prng × c.Prng))
      → Paired c base_choices i ps qs
      → RowsAgree base_choices choices cols 0 i ps qs
  unfolding receiver_rows sender_rows
  rows_zero base_choices choices cols i ps qs paired = record {
    t0 = [];
    sent = [];
    after = qs;
    received = refl;
    length_t0 = omega arith;
    length_sent = omega arith;
    blocks_t0 = tt;
    blocks_sent = tt;
    sends =
        λ recv h same. ([], ps, refl, paired, refl, omega arith, λ x j px. absurd (omega arith));
  }

  receiver_rows-suc :
      (cols n : ℕ) (choices : List Block) (q0 q1 : c.Prng) (qs : List (c.Prng × c.Prng))
      (u t sent : List Block) (after : List (c.Prng × c.Prng))
      → 0 < cols
      → masked_row cols (generate_blocks c q0 cols).0 (generate_blocks c q1 cols).0 choices ≡ ok u
      → receiver_rows c cols choices n qs ≡ ok (t, sent, after)
      → receiver_rows c cols choices (suc n) ((q0, q1) ∷ qs)
        ≡ ok (
          (generate_blocks c q0 cols).0 ++ t,
          u ++ sent,
          ((generate_blocks c q0 cols).1, (generate_blocks c q1 cols).1) ∷ after,
        )
  unfolding receiver_rows
  receiver_rows-suc cols n choices q0 q1 qs u t sent after pos e f =
      rw (generate_row-eq c q0 cols pos, generate_row-eq c q1 cols pos, e, f) refl

  sender_rows-suc :
      (cols n i : ℕ) (base_choices recv : List Block) (p : c.Prng) (ps : List c.Prng)
      (row ext : List Block) (ps' : List c.Prng)
      → 0 < cols
      → i < 128 * length base_choices
      → (if bit_at base_choices i == 0
          then ok (generate_blocks c p cols).0
          else add_row cols i (generate_blocks c p cols).0 recv)
        ≡ ok row
      → sender_rows c cols base_choices recv n (i + 1) ps ≡ ok (ext, ps')
      → sender_rows c cols base_choices recv (suc n) i (p ∷ ps)
        ≡ ok (row ++ ext, (generate_blocks c p cols).1 ∷ ps')
  unfolding sender_rows
  sender_rows-suc cols n i base_choices recv p ps row ext ps' pos hi e f =
      rw (generate_row-eq c p cols pos, bit_from_blocks_lem base_choices i hi, e, f) refl

  masked-IsBlock :
      (cols : ℕ) (q0 q1 : c.Prng) (choices u : List Block)
      → IsCrypto c
      → cols ≤ length choices
      → All IsBlock choices
      → length u ≡ cols
      → ((k : ℕ)
          → k < cols
          → get_or u k 0
            ≡ bit_xor
                (bit_xor
                  (get_or (generate_blocks c q0 cols).0 k 0)
                  (get_or (generate_blocks c q1 cols).0 k 0))
                (get_or choices k 0))
      → All IsBlock u
  masked-IsBlock cols q0 q1 choices u w hc blocks e h = All-of_get_or IsBlock u 0 λ k lt.
      rw (h k (omega arith)) (
        bit_xor-lt 128 _ _
          (bit_xor-lt 128 _ _
            (All-get_or IsBlock _ k 0 (generate_blocks-IsBlock c w q0 cols)
              (omega (arith, length-generate_blocks c q0 cols)))
            (All-get_or IsBlock _ k 0 (generate_blocks-IsBlock c w q1 cols)
              (omega (arith, length-generate_blocks c q1 cols))))
          (All-get_or IsBlock choices k 0 blocks (omega arith)))

  rows_suc :
      (base_choices choices : List Block) (cols n i : ℕ) (p q0 q1 : c.Prng) (ps : List c.Prng)
      (qs : List (c.Prng × c.Prng))
      → IsCrypto c
      → 0 < cols
      → cols ≤ length choices
      → All IsBlock choices
      → i < 128 * length base_choices
      → p ≡ (if bit_at base_choices i == 0 then q0 else q1)
      → RowsAgree base_choices choices cols n (i + 1) ps qs
      → RowsAgree base_choices choices cols (suc n) i (p ∷ ps) ((q0, q1) ∷ qs)
  rows_suc base_choices choices cols n i p q0 q1 ps qs w pos hc blocks hi e ih =
      let g0 = generate_blocks c q0 cols in
      let g1 = generate_blocks c q1 cols in
      let l0 = length-generate_blocks c q0 cols in
      let l1 = length-generate_blocks c q1 cols in
      let u = masked_row_lem cols g0.0 g1.0 choices l0 l1 hc in
      record {
        t0 = g0.0 ++ ih.t0;
        sent = u.0 ++ ih.sent;
        after = (g0.1, g1.1) ∷ ih.after;
        received =
            receiver_rows-suc cols n choices q0 q1 qs u.0 ih.t0 ih.sent ih.after pos u.1
              ih.received;
        length_t0 = omega (arith, length-append g0.0 ih.t0, l0, ih.length_t0);
        length_sent = omega (arith, length-append u.0 ih.sent, u.2, ih.length_sent);
        blocks_t0 =
            All-append IsBlock g0.0 ih.t0 (generate_blocks-IsBlock c w q0 cols) ih.blocks_t0;
        blocks_sent =
            All-append IsBlock u.0 ih.sent
              (masked-IsBlock cols q0 q1 choices u.0 w hc blocks u.2 u.3) ih.blocks_sent;
        sends = λ recv h same.
            let top = λ (k : ℕ) (lt : k < cols).
              same k (omega arith) ∙ get_or-append_left u.0 ih.sent k 0 (omega (arith, u.2)) in
            let below = λ (k : ℕ) (lt : k < n * cols).
              let to : (i + 1) * cols + k ≡ i * cols + (cols + k) = omega arith in
              let from : cols + k ≡ length u.0 + k = omega (arith, u.2) in
              ap (λ (t : ℕ). get_or recv t 0) to
              ∙ same (cols + k) (omega arith)
              ∙ ap (λ (t : ℕ). get_or (u.0 ++ ih.sent) t 0) from
              ∙ get_or-append_right u.0 ih.sent k 0 in
            let row =
              sender_row c cols i (bit_at base_choices i) p q0 q1 choices u.0 recv e (omega arith)
                top u.3 in
            let rest = ih.sends recv (omega arith) below in
            (
              row.0 ++ rest.0,
              (generate_blocks c p cols).1 ∷ rest.1,
              sender_rows-suc cols n i base_choices recv p ps row.0 rest.0 rest.1 pos hi row.1
                  rest.2,
              (row.3, rest.3),
              ap suc rest.4,
              omega (arith, length-append row.0 rest.0, row.2, rest.5),
              stacked
                  (λ x j v t. v ≡ (
                    if bit_at base_choices (i + x) == 0 then t else bit_xor t (get_or choices j 0)))
                  row.0 g0.0 rest.0 ih.t0 n cols row.2 l0
                  (λ j lt. let z : i + 0 ≡ i = omega arith in rw z (row.4 j lt))
                  (λ x j px pj.
                    let z : i + suc x ≡ i + 1 + x = omega arith in rw z (rest.6 x j px pj)),
            );
      }

  -- With paired generators both loops return, and the matrices agree.
  pub rows_agree :
      (base_choices choices : List Block) (cols n i : ℕ) (ps : List c.Prng)
      (qs : List (c.Prng × c.Prng))
      → IsCrypto c
      → 0 < cols
      → cols ≤ length choices
      → All IsBlock choices
      → i + n ≤ 128 * length base_choices
      → n ≤ length ps
      → Paired c base_choices i ps qs
      → RowsAgree base_choices choices cols n i ps qs
  rows_agree base_choices choices cols zero i ps qs w pos hc blocks hi hp paired =
      rows_zero base_choices choices cols i ps qs paired
  rows_agree base_choices choices cols (suc n) i [] qs w pos hc blocks hi hp paired =
      absurd (omega arith)
  rows_agree base_choices choices cols (suc n) i (p ∷ ps) [] w pos hc blocks hi hp paired =
      elim paired [ ]
  rows_agree base_choices choices cols (suc n) i (p ∷ ps) ((q0, q1) ∷ qs) w pos hc blocks hi hp
        paired =
      rows_suc base_choices choices cols n i p q0 q1 ps qs w pos hc blocks (omega arith) paired.0 (
        rows_agree base_choices choices cols n (i + 1) ps qs w pos hc blocks (omega arith)
          (omega arith) paired.1)
