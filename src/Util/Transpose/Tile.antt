-- ===== src/Util/Transpose/Tile.antt =====
-- One tile of the transposition: 16 rows by 8 columns of bits.
use native.Mathlib.Nat.{mul-le-mul_right}
use native.Mathlib.Decide.{dec_lt, ℕ_discrete}
use petace_verse.Common.{
  Outcome, for_range, for_range-Returns, ℕ, suc, ◌+◌, ◌-◌, ◌*◌, ◌/◌, ◌%◌, ◌^◌, ◌≤◌, ◌<◌, List, ◌≡◌,
  sym, ap, ap₂, ◌∙◌, arith, length, All, ◌≢◌, ◌⊎◌, inl, inr, Returns, Returns-bind, Built,
}
use petace_verse.Common.Bits.{bit}
use petace_verse.Util.Memory.{Block, IsBlock, store_u16, bit_at}
use petace_verse.Util.Memory.Stores.{IsStored, store_u16-IsStored}
use petace_verse.Util.Transpose.{set_epi8, movemask_epi8, store_column, tile}
use petace_verse.Util.Transpose.Load.{
  index-lt, Shifted, Loaded, load_tile, start-Shifted, shift-Shifted,
}
use petace_verse.Util.Transpose.Simd.{bit-movemask_epi8}

-- A cell of another column lies outside the 16 bits that a column of a tile takes.
apart :
    (r x y z i : ℕ)
    → x < r
    → i + 16 ≤ r
    → y ≢ z
    → (y * r + x < z * r + i) ⊎ (z * r + i + 16 ≤ y * r + x)
apart r x y z i p q ne = elim (dec_lt y z) [
  | yes h ↦ inl (let k : suc y * r ≤ z * r = mul-le-mul_right r h in omega arith)
  | no h ↦
      let h' : z < y = omega arith in
      inr (let k : suc z * r ≤ y * r = mul-le-mul_right r h' in omega arith)
]

-- A matrix of `128 * R` rows and `128 * C` columns of bits.
module _ (input : List Block) (R C : ℕ) where
  -- Bit (y, x) of the result is bit (x, y) of the input.
  abbrev pub Cell : List Block → ℕ → ℕ → Type 0
  Cell out x y = bit_at out (y * (128 * R) + x) ≡ bit_at input (x * (128 * C) + y)

  -- The cells of `S` are in their place.
  pub record Filled (S : ℕ → ℕ → Type 0) (out : List Block) : Type 0 where
    pub same_length : length out ≡ 128 * (R * C)
    pub blocks : All IsBlock out
    pub cells : (x y : ℕ) → x < 128 * R → y < 128 * C → S x y → Cell out x y

  pub Filled-mono :
      (S T : ℕ → ℕ → Type 0) (out : List Block)
      → ((x y : ℕ) → x < 128 * R → y < 128 * C → T x y → S x y)
      → Filled S out
      → Filled T out
  Filled-mono S T out h w = record {
    same_length = w.same_length;
    blocks = w.blocks;
    cells = λ x y p q s. w.cells x y p q (h x y p q s);
  }

  -- A cell that has to be in place is stored now, or was in place and is left alone.
  abbrev StoredOrFar : (ℕ → ℕ → Type 0) → ℕ → ℕ → ℕ → ℕ → ℕ → Type 0
  StoredOrFar S z i off x y =
      ((y ≡ z) × (i ≤ x) × (x < i + 16))
      ⊎ (S x y × ((y * (128 * R) + x < 8 * off) ⊎ (8 * off + 16 ≤ y * (128 * R) + x)))

  stored_or_far :
      (S : ℕ → ℕ → Type 0) (z i off x y : ℕ)
      → 8 * off ≡ z * (128 * R) + i
      → i + 16 ≤ 128 * R
      → x < 128 * R
      → S x y ⊎ ((y ≡ z) × (i ≤ x) × (x < i + 16))
      → StoredOrFar S z i off x y
  stored_or_far S z i off x y place p px (inr now) = inl now
  stored_or_far S z i off x y place p px (inl old) = elim (ℕ_discrete y z) [
    | no ne ↦ inr (old, omega (arith, apart (128 * R) x y z i px p ne))
    | yes e ↦ elim (dec_lt x i) [
      | yes below ↦ inr (old, inl (omega (arith, ap (λ (u : ℕ). u * (128 * R)) e)))
      | no notbelow ↦ elim (dec_lt x (i + 16)) [
        | yes inside ↦ inl (e, omega arith, inside)
        | no above ↦ inr (old, inr (omega (arith, ap (λ (u : ℕ). u * (128 * R)) e)))
      ]
    ]
  ]

  -- Storing the 16 bits of column `z` from row `i` on puts their cells in place.
  column-Filled :
      (S T : ℕ → ℕ → Type 0) (z i off v : ℕ) (out out' : List Block)
      → 8 * off ≡ z * (128 * R) + i
      → i + 16 ≤ 128 * R
      → ((m : ℕ) → m < 16 → bit v m ≡ bit_at input ((i + m) * (128 * C) + z))
      → ((x y : ℕ) → T x y → S x y ⊎ ((y ≡ z) × (i ≤ x) × (x < i + 16)))
      → Filled S out
      → IsStored out off v out'
      → Filled T out'
  column-Filled S T z i off v out out' place p value cover w st = record {
    same_length = st.same_length ∙ w.same_length;
    blocks = st.blocks;
    cells = λ x y px py s. elim (stored_or_far S z i off x y place p px (cover x y s)) [
      | inl (e, lo, hi) ↦
          let m : ℕ = x - i in
          let here : y * (128 * R) + x ≡ 8 * off + m =
            omega (arith, ap (λ (u : ℕ). u * (128 * R)) e) in
          let row : i + m ≡ x = omega arith in
          rw here (
            st.inside m (omega arith)
            ∙ value m (omega arith)
            ∙ ap₂ (λ (u v : ℕ). bit_at input (u * (128 * C) + v)) row (sym e))
      | inr (old, far) ↦ st.outside (y * (128 * R) + x) far ∙ w.cells x y px py old
    ];
  }

  -- A round puts the cells of one column of the tile in place and disturbs none.
  store_column-Filled :
      (S T : ℕ → ℕ → Type 0) (a b t : ℕ) (out : List Block) (reg : Block)
      → 128 * R * (128 * C) < 2 ^ 64
      → 16 * a + 16 ≤ 128 * R
      → 8 * b + 8 ≤ 128 * C
      → t < 8
      → ((x y : ℕ) → T x y → S x y ⊎ ((y ≡ 8 * b + (7 - t)) × (16 * a ≤ x) × (x < 16 * a + 16)))
      → Filled S out
      → Shifted input R C (16 * a) (8 * b) t reg
      → Returns
          (λ r. Filled T r.0 × Shifted input R C (16 * a) (8 * b) (t + 1) r.1)
          (store_column input (128 * R) (128 * C) (16 * a) (8 * b) (8 - t) (out, reg))
  unfolding store_column
  store_column-Filled S T a b t out reg small p q ht cover w sh =
      let z : ℕ = 8 * b + (8 - t) - 1 in
      let off : ℕ = z * (128 * R) / 8 + 16 * a / 8 in
      let bound : z * (128 * R) + (16 * a + 15) < 128 * C * (128 * R) =
        index-lt z (16 * a + 15) _ _ (omega arith) (omega arith) in
      let whole : z * (128 * R) % 2 ^ 64 ≡ z * (128 * R) = omega arith in
      let value = λ (m : ℕ) (h : m < 16).
        let top : 8 * m + (7 - t + t) ≡ 8 * m + 7 = omega arith in
        let col : 8 * b + (7 - t) ≡ z = omega arith in
        bit-movemask_epi8 reg m h
        ∙ ap (bit reg) (sym top)
        ∙ sh m (7 - t) h (omega arith)
        ∙ ap (λ (u : ℕ). bit_at input ((16 * a + m) * (128 * C) + u)) col in
      Returns-bind (IsStored out off (movemask_epi8 reg % 2 ^ 16)) _
        (store_u16 out (z * (128 * R) % 2 ^ 64 / 8 + 16 * a / 8) (movemask_epi8 reg % 2 ^ 16)) _
        (rw whole (store_u16-IsStored out off _ (omega (arith, w.same_length)) w.blocks))
        λ out' st. (
          column-Filled S T z (16 * a) off _ out out' (omega arith) p value
              (λ x y s. elim (cover x y s) [
                | inl old ↦ inl old
                | inr (e, lo, hi) ↦ inr (omega arith, lo, hi)
              ])
              w st,
          shift-Shifted input R C (16 * a) (8 * b) t reg sh,
        )

  -- A tile puts its cells in place: eight rounds, from its last column to its first.
  pub tile-Filled :
      (S T : ℕ → ℕ → Type 0) (a b : ℕ) (out : List Block)
      → 128 * (R * C) ≤ length input
      → 128 * R * (128 * C) < 2 ^ 64
      → 16 * a + 16 ≤ 128 * R
      → 8 * b + 8 ≤ 128 * C
      → ((x y : ℕ)
          → T x y
          → S x y ⊎ ((16 * a ≤ x) × (x < 16 * a + 16) × (8 * b ≤ y) × (y < 8 * b + 8)))
      → Filled S out
      → Returns (Filled T) (tile input (128 * R) (128 * C) (16 * a) (8 * b) out)
  unfolding tile
  tile-Filled S T a b out fits small p q cover w =
      Returns-bind (Built 16 0 (Loaded input R C (16 * a) (8 * b))) (Filled T) _ _
        (load_tile input R C small fits a b p (omega arith))
        λ bytes loaded.
          Returns-bind (After 8) (Filled T) (for_range 8 0 round (out, set_epi8 bytes)) _
            (for_range-Returns After round 8 0 8 (out, set_epi8 bytes) (omega arith)
              (λ t r _ ht h.
                store_column-Filled (Sofar t) (Sofar (t + 1)) a b t r.0 r.1 small p q ht
                  (λ x y s. step t x y ht s) h.0 h.1)
              (
                Filled-mono S (Sofar 0) out (λ x y _ _ s. start x y s) w,
                start-Shifted input R C (16 * a) (8 * b) bytes loaded,
              ))
            λ r h. Filled-mono (Sofar 8) T r.0 (λ x y _ _ s. finish x y (cover x y s)) h.0
    where
      InTile : ℕ → ℕ → ℕ → Type 0
      InTile t x y = (16 * a ≤ x) × (x < 16 * a + 16) × (8 * b + (8 - t) ≤ y) × (y < 8 * b + 8)

      Sofar : ℕ → ℕ → ℕ → Type 0
      Sofar t x y = S x y ⊎ InTile t x y

      After : ℕ → List Block × Block → Type 0
      After t r = Filled (Sofar t) r.0 × Shifted input R C (16 * a) (8 * b) t r.1

      round : ℕ → List Block × Block → Outcome (List Block × Block)
      round t = store_column input (128 * R) (128 * C) (16 * a) (8 * b) (8 - t)

      start : (x y : ℕ) → Sofar 0 x y → S x y
      start x y (inl s) = s
      start x y (inr (h, i, j, k)) = absurd (omega arith)

      step :
          (t x y : ℕ)
          → t < 8
          → Sofar (t + 1) x y
          → Sofar t x y ⊎ ((y ≡ 8 * b + (7 - t)) × (16 * a ≤ x) × (x < 16 * a + 16))
      step t x y ht (inl s) = inl (inl s)
      step t x y ht (inr (h, i, j, k)) = elim (ℕ_discrete y (8 * b + (7 - t))) [
        | yes e ↦ inr (e, h, i)
        | no ne ↦ inl (inr (h, i, omega arith, k))
      ]

      finish :
          (x y : ℕ)
          → S x y ⊎ ((16 * a ≤ x) × (x < 16 * a + 16) × (8 * b ≤ y) × (y < 8 * b + 8))
          → Sofar 8 x y
      finish x y (inl s) = inl s
      finish x y (inr (h, i, j, k)) = inr (h, i, omega arith, k)
