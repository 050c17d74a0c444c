-- ===== src/Kkrt/Rows.antt =====
-- The generated rows of both parties, and the squares of 128 by 128 bits turned.
use petace_verse.Common.{
  ℕ, zero, suc, ◌+◌, ◌≤◌, ◌<◌, List, [], ◌∷◌, ok, ◌==◌, if◌then◌else◌, length, get_or, ◌≡◌, refl,
  ap, ◌∙◌, arith, Bool-cases, inl, inr,
}
use petace_verse.Util.Memory.{Block, bit_at}
use petace_verse.Crypto.{Crypto, generate_row-eq, generate_blocks, length-generate_blocks}
use petace_verse.Pairing.{Paired}
use petace_verse.Kkrt.Matrix.{generate_rows, generate_row_pairs}

if_first {ℓ κ} :
    {A : Type ℓ} {B : Type κ} (b : ℕ) (x y : A × B)
    → (if b == 0 then x else y).0 ≡ (if b == 0 then x.0 else y.0)
if_first b x y = elim (Bool-cases (b == 0)) [ inl z ↦ rw z refl | inr z ↦ rw z refl ]

if_second {ℓ κ} :
    {A : Type ℓ} {B : Type κ} (b : ℕ) (x y : A × B)
    → (if b == 0 then x else y).1 ≡ (if b == 0 then x.1 else y.1)
if_second b x y = elim (Bool-cases (b == 0)) [ inl z ↦ rw z refl | inr z ↦ rw z refl ]

module _ (c : Crypto) where
  -- What both loops return over `n` rows from row `i` on.
  pub record RowsAgree (base_choices : List Block) (cols n i : ℕ) (ps : List c.Prng)
      (qs : List (c.Prng × c.Prng)) : Type 0 where
    pub ext : List (List Block)
    pub t0 : List (List Block)
    pub t1 : List (List Block)
    pub sender_after : List c.Prng
    pub receiver_after : List (c.Prng × c.Prng)
    pub sends : generate_rows c cols n ps ≡ ok (ext, sender_after)
    pub receives : generate_row_pairs c cols n qs ≡ ok (t0, t1, receiver_after)
    pub paired : Paired c base_choices i sender_after receiver_after
    pub length_after : length sender_after ≡ length ps
    pub length_ext : length ext ≡ n
    pub length_t0 : length t0 ≡ n
    pub length_t1 : length t1 ≡ n
    pub widths :
        (x : ℕ)
        → x < n
        → (length (get_or ext x []) ≡ cols)
          × (length (get_or t0 x []) ≡ cols)
          × (length (get_or t1 x []) ≡ cols)
    pub rows :
        (x : ℕ)
        → x < n
        → get_or ext x []
          ≡ (if bit_at base_choices (i + x) == 0 then get_or t0 x [] else get_or t1 x [])

  generated-eq :
      (cols b : ℕ) (p q0 q1 : c.Prng)
      → p ≡ (if b == 0 then q0 else q1)
      → generate_blocks c p cols
        ≡ (if b == 0 then generate_blocks c q0 cols else generate_blocks c q1 cols)
  generated-eq cols b p q0 q1 e = elim (Bool-cases (b == 0)) [
    | inl z ↦ rw z (ap (λ (r : c.Prng). generate_blocks c r cols) (rw z at e))
    | inr z ↦ rw z (ap (λ (r : c.Prng). generate_blocks c r cols) (rw z at e))
  ]

  -- With paired generators the sender's row is one of the receiver's two.
  pub rows_agree :
      (base_choices : List Block) (cols n i : ℕ) (ps : List c.Prng) (qs : List (c.Prng × c.Prng))
      → 0 < cols
      → n ≤ length ps
      → Paired c base_choices i ps qs
      → RowsAgree base_choices cols n i ps qs
  unfolding generate_rows generate_row_pairs
  rows_agree base_choices cols zero i ps qs pos h paired = record {
    ext = [];
    t0 = [];
    t1 = [];
    sender_after = ps;
    receiver_after = qs;
    sends = refl;
    receives = refl;
    paired = paired;
    length_after = refl;
    length_ext = refl;
    length_t0 = refl;
    length_t1 = refl;
    widths = λ x lt. absurd (omega arith);
    rows = λ x lt. absurd (omega arith);
  }
  rows_agree base_choices cols (suc n) i [] qs pos h paired = absurd (omega arith)
  rows_agree base_choices cols (suc n) i (p ∷ ps) [] pos h paired = elim paired [ ]
  rows_agree base_choices cols (suc n) i (p ∷ ps) ((q0, q1) ∷ qs) pos h paired =
      let ih = rows_agree base_choices cols n (i + 1) ps qs pos (omega arith) paired.1 in
      let g = generate_blocks c p cols in
      let g0 = generate_blocks c q0 cols in
      let g1 = generate_blocks c q1 cols in
      let same = generated-eq cols (bit_at base_choices i) p q0 q1 paired.0 in
      record {
        ext = g.0 ∷ ih.ext;
        t0 = g0.0 ∷ ih.t0;
        t1 = g1.0 ∷ ih.t1;
        sender_after = g.1 ∷ ih.sender_after;
        receiver_after = (g0.1, g1.1) ∷ ih.receiver_after;
        sends = rw (generate_row-eq c p cols pos, ih.sends) refl;
        receives =
            rw (generate_row-eq c q0 cols pos, generate_row-eq c q1 cols pos, ih.receives) refl;
        paired = (
          ap (λ (t : List Block × c.Prng). t.1) same ∙ if_second (bit_at base_choices i) g0 g1,
          ih.paired,
        );
        length_after = ap suc ih.length_after;
        length_ext = ap suc ih.length_ext;
        length_t0 = ap suc ih.length_t0;
        length_t1 = ap suc ih.length_t1;
        widths = elim [
          | zero ↦ λ lt. (
            length-generate_blocks c p cols,
            length-generate_blocks c q0 cols,
            length-generate_blocks c q1 cols,
          )
          | suc x ↦ λ lt. ih.widths x (omega arith)
        ];
        rows = elim [
          | zero ↦ λ lt.
              let z : i + 0 ≡ i = omega arith in
              rw z (
                ap (λ (t : List Block × c.Prng). t.0) same ∙ if_first (bit_at base_choices i) g0 g1)
          | suc x ↦
              λ lt. let z : i + suc x ≡ i + 1 + x = omega arith in rw z (ih.rows x (omega arith))
        ];
      }
