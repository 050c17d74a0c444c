-- ===== src/Util/Memory/Laws.antt =====
-- Loads and stores by bytes, described bit by bit.
use native.Mathlib.Nat.{mul-le-mul_right, one-le-pow, mod-lt}
use petace_verse.Common.{
  ℕ, suc, ◌+◌, ◌-◌, ◌*◌, ◌/◌, ◌%◌, ◌^◌, ◌≤◌, ◌<◌, List, ok, fault, get_or, length, load-get_or,
  load_fault, ◌≡◌, refl, ◌∙◌, ◌⊎◌, inl, inr, arith, ◌==◌, if◌then◌else◌, eq→==, ne→==,
}
use petace_verse.Common.Bits.{
  bit, bit-mod, bit-shift, bit-join_low, bit-join_high, bit_high, lt_of_bits, two-pow-add-eight,
}
use native.Mathlib.Decide.{dec_lt}
use petace_verse.Util.Memory.{Block, IsBlock, load_byte, with_byte, bit_at}

-- The byte at an offset.
abbrev pub byte_at : List Block → ℕ → ℕ
byte_at mem off = get_or mem (off / 16) 0 / 2 ^ (8 * (off % 16)) % 2 ^ 8

pub load_byte_lem :
    (mem : List Block) (off : ℕ) → off < 16 * length mem → load_byte mem off ≡ ok (byte_at mem off)
unfolding load_byte
load_byte_lem mem off h = rw (load-get_or mem (off / 16) 0 (omega arith)) refl

pub load_byte_fault :
    (mem : List Block) (off : ℕ) → 16 * length mem ≤ off → load_byte mem off ≡ fault
unfolding load_byte
load_byte_fault mem off h = rw (load_fault mem (off / 16) (omega arith)) refl

pub bit-byte_at :
    (mem : List Block) (off r : ℕ) → r < 8 → bit (byte_at mem off) r ≡ bit_at mem (8 * off + r)
bit-byte_at mem off r h =
    let which : (8 * off + r) / 128 ≡ off / 16 = omega arith in
    let place : (8 * off + r) % 128 ≡ 8 * (off % 16) + r = omega arith in
    rw (which, place) (bit-mod 8 _ r h ∙ bit-shift (8 * (off % 16)) (get_or mem (off / 16) 0) r)

-- The written byte and what lies below it fit their place.
field-lt : (a v l : ℕ) → v < 256 → l < 2 ^ a → v * 2 ^ a + l < 2 ^ (a + 8)
field-lt a v l hv hl =
    let top : suc v * 2 ^ a ≤ 256 * 2 ^ a = mul-le-mul_right (2 ^ a) hv in
    omega (arith, two-pow-add-eight a)

with_byte_low : (b i v k : ℕ) → v < 256 → k < 8 * i → bit (with_byte b i v) k ≡ bit b k
unfolding with_byte
with_byte_low b i v k hv h =
    bit-join_low (8 * i + 8) (b / 2 ^ (8 * i + 8)) (v * 2 ^ (8 * i) + b % 2 ^ (8 * i)) k
      (omega arith)
    ∙ bit-join_low (8 * i) v (b % 2 ^ (8 * i)) k h
    ∙ bit-mod (8 * i) b k h

with_byte_here : (b i v r : ℕ) → v < 256 → r < 8 → bit (with_byte b i v) (8 * i + r) ≡ bit v r
unfolding with_byte
with_byte_here b i v r hv h =
    bit-join_low (8 * i + 8) (b / 2 ^ (8 * i + 8)) (v * 2 ^ (8 * i) + b % 2 ^ (8 * i)) (8 * i + r)
      (omega arith)
    ∙ bit-join_high (8 * i) v (b % 2 ^ (8 * i)) r (mod_lt_pow (8 * i) b)
  where
    mod_lt_pow : (w n : ℕ) → n % 2 ^ w < 2 ^ w
    mod_lt_pow w n = mod-lt n (one-le-pow w 2 (omega arith))

with_byte_high :
    (b i v k : ℕ) → v < 256 → bit (with_byte b i v) (8 * i + 8 + k) ≡ bit b (8 * i + 8 + k)
unfolding with_byte
with_byte_high b i v k hv =
    bit-join_high (8 * i + 8) (b / 2 ^ (8 * i + 8)) (v * 2 ^ (8 * i) + b % 2 ^ (8 * i)) k
      (field-lt (8 * i) v (b % 2 ^ (8 * i)) hv (mod-lt b (one-le-pow (8 * i) 2 (omega arith))))
    ∙ bit-shift (8 * i + 8) b k

-- Every bit of a block after one of its bytes is overwritten.
pub bit-with_byte :
    (b i v k : ℕ)
    → v < 256
    → bit (with_byte b i v) k ≡ (if k / 8 == i then bit v (k % 8) else bit b k)
bit-with_byte b i v k hv = elim (place i k) [
  | inl low ↦ rw (ne→== (k / 8) i (omega arith)) (with_byte_low b i v k hv low)
  | inr (inl (r, h, e)) ↦
      let at : k / 8 ≡ i = omega arith in
      let off : k % 8 ≡ r = omega arith in
      rw (eq→== (k / 8) i at, off, e) (with_byte_here b i v r hv h)
  | inr (inr (r, e)) ↦ rw (ne→== (k / 8) i (omega arith), e) (with_byte_high b i v r hv)
]
  where
    place :
        (i k : ℕ)
        → (k < 8 * i) ⊎ (((r : ℕ) × (r < 8) × (k ≡ 8 * i + r)) ⊎ ((r : ℕ) × (k ≡ 8 * i + 8 + r)))
    place i k = elim (dec_lt k (8 * i)) [
      | yes p ↦ inl p
      | no p ↦ inr (elim (dec_lt k (8 * i + 8)) [
        | yes q ↦ inl (k - 8 * i, omega arith, omega arith)
        | no q ↦ inr (k - (8 * i + 8), omega arith)
      ])
    ]

pub with_byte-IsBlock : (b i v : ℕ) → v < 256 → i < 16 → IsBlock b → IsBlock (with_byte b i v)
with_byte-IsBlock b i v hv hi hb =
    lt_of_bits 128 (with_byte b i v)
      λ k le. bit-with_byte b i v k hv ∙ rw (ne→== (k / 8) i (omega arith)) (bit_high 128 b k hb le)
