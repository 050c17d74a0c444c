-- ===== src/Util/Memory/Stores.antt =====
-- What a store changes, bit by bit, and `bit_from_blocks` as a bit of the vector.
use native.Mathlib.Decide.{dec_lt, ℕ_discrete}
use petace_verse.Common.{
  ℕ, zero, suc, ◌+◌, ◌-◌, ◌*◌, ◌/◌, ◌%◌, ◌^◌, ◌≤◌, ◌<◌, List, [], ◌∷◌, ok, fault, get_or, set,
  length, length-set, get_or-set_self, get_or-set_ne, load-get_or, store-set, ◌≡◌, refl, ap, ◌∙◌,
  ◌⊎◌, arith, All, All-get_or, ◌==◌, if◌then◌else◌, eq→==, ne→==, Returns,
}
use petace_verse.Common.Bits.{bit, bit-shift, bit-mod, bit_and-one}
use petace_verse.Util.Memory.{
  Block, IsBlock, with_byte, store_byte, store_u16, bit_from_blocks, bit_at,
}
use petace_verse.Util.Memory.Laws.{
  load_byte_lem, load_byte_fault, bit-byte_at, bit-with_byte, with_byte-IsBlock,
}

All-set :
    (xs : List Block) (i : ℕ) (v : Block) → All IsBlock xs → IsBlock v → All IsBlock (set xs i v)
All-set [] i v a h = tt
All-set (x ∷ xs) zero v a h = (h, a.1)
All-set (x ∷ xs) (suc i) v a h = (a.0, All-set xs i v a.1 h)

set_byte : List Block → ℕ → ℕ → List Block
set_byte mem off v = set mem (off / 16) (with_byte (get_or mem (off / 16) 0) (off % 16) v)

store_byte_lem :
    (mem : List Block) (off v : ℕ)
    → off < 16 * length mem
    → store_byte mem off v ≡ ok (set_byte mem off v)
unfolding store_byte set_byte
store_byte_lem mem off v h =
    rw (load-get_or mem (off / 16) 0 (omega arith)) (store-set mem (off / 16) _ (omega arith))

length-set_byte : (mem : List Block) (off v : ℕ) → length (set_byte mem off v) ≡ length mem
unfolding set_byte
length-set_byte mem off v = length-set mem (off / 16) _

set_byte-IsBlock :
    (mem : List Block) (off v : ℕ)
    → off < 16 * length mem
    → v < 256
    → All IsBlock mem
    → All IsBlock (set_byte mem off v)
unfolding set_byte
set_byte-IsBlock mem off v h hv a = All-set mem (off / 16) _ a (
    with_byte-IsBlock _ (off % 16) v hv (omega arith)
      (All-get_or IsBlock mem (off / 16) 0 a (omega arith)))

bit_at-set_byte :
    (mem : List Block) (off v n : ℕ)
    → off < 16 * length mem
    → v < 256
    → bit_at (set_byte mem off v) n ≡ (if n / 8 == off then bit v (n % 8) else bit_at mem n)
unfolding set_byte
bit_at-set_byte mem off v n h hv = elim (ℕ_discrete (off / 16) (n / 128)) [
  | yes e ↦
      rw
        (
          ← e,
          get_or-set_self mem (off / 16) (with_byte (get_or mem (off / 16) 0) (off % 16) v) 0
              (omega arith),
          bit-with_byte (get_or mem (off / 16) 0) (off % 16) v (n % 128) hv,
        )
        (same e)
  | no ne ↦
      rw
        (
          get_or-set_ne mem (off / 16) (n / 128) (with_byte (get_or mem (off / 16) 0) (off % 16) v)
              0 ne,
          ne→== (n / 8) off (λ (e : n / 8 ≡ off). ne (omega arith)),
        )
        refl
]
  where
    same :
        off / 16 ≡ n / 128
        → (if n % 128 / 8 == off % 16
            then bit v (n % 128 % 8)
            else bit (get_or mem (off / 16) 0) (n % 128))
          ≡ (if n / 8 == off then bit v (n % 8) else bit (get_or mem (off / 16) 0) (n % 128))
    same e = elim (ℕ_discrete (n / 8) off) [
      | yes q ↦
          let q' : n % 128 / 8 ≡ off % 16 = omega arith in
          let r : n % 128 % 8 ≡ n % 8 = omega arith in
          rw (eq→== (n / 8) off q, eq→== (n % 128 / 8) (off % 16) q', r)
      | no q ↦ rw (
        ne→== (n / 8) off q,
        ne→== (n % 128 / 8) (off % 16) (λ (z : n % 128 / 8 ≡ off % 16). q (omega arith)),
      )
    ]

-- `out` is `mem` with the 16 bits from byte `off` on replaced by those of `v`.
pub record IsStored (mem : List Block) (off v : ℕ) (out : List Block) : Type 0 where
  pub same_length : length out ≡ length mem
  pub blocks : All IsBlock out
  pub inside : (m : ℕ) → m < 16 → bit_at out (8 * off + m) ≡ bit v m
  pub outside : (n : ℕ) → (n < 8 * off) ⊎ (8 * off + 16 ≤ n) → bit_at out n ≡ bit_at mem n

bit_low_byte : (v m : ℕ) → m < 8 → bit (v % 2 ^ 8) m ≡ bit v m
bit_low_byte v m h = bit-mod 8 v m h

bit_high_byte : (v m : ℕ) → m < 8 → bit (v / 2 ^ 8 % 2 ^ 8) m ≡ bit v (8 + m)
bit_high_byte v m h = bit-mod 8 (v / 2 ^ 8) m h ∙ bit-shift 8 v m

pub store_u16-IsStored :
    (mem : List Block) (off v : ℕ)
    → off + 1 < 16 * length mem
    → All IsBlock mem
    → Returns (IsStored mem off v) (store_u16 mem off v)
unfolding store_u16
store_u16-IsStored mem off v h a =
    let lo : ℕ = v % 2 ^ 8 in
    let hi : ℕ = v / 2 ^ 8 % 2 ^ 8 in
    let half = set_byte mem off lo in
    let same = length-set_byte mem off lo in
    let fits : off + 1 < 16 * length half = omega (arith, same) in
    let first = λ (n : ℕ). bit_at-set_byte mem off lo n (omega arith) (omega arith) in
    let second = λ (n : ℕ). bit_at-set_byte half (off + 1) hi n fits (omega arith) in
    rw (store_byte_lem mem off lo (omega arith), store_byte_lem half (off + 1) hi fits)
      (record {
        same_length = length-set_byte half (off + 1) hi ∙ same;
        blocks =
            set_byte-IsBlock half (off + 1) hi fits (omega arith)
              (set_byte-IsBlock mem off lo (omega arith) (omega arith) a);
        inside = λ m lt. elim (dec_lt m 8) [
          | yes p ↦
              let at : (8 * off + m) / 8 ≡ off = omega arith in
              let off8 : (8 * off + m) % 8 ≡ m = omega arith in
              rw
                (
                  second (8 * off + m),
                  ne→== ((8 * off + m) / 8) (off + 1) (omega arith),
                  first (8 * off + m),
                  eq→== ((8 * off + m) / 8) off at,
                  off8,
                )
                (bit_low_byte v m p)
          | no p ↦
              let at : (8 * off + m) / 8 ≡ off + 1 = omega arith in
              let off8 : (8 * off + m) % 8 ≡ m - 8 = omega arith in
              let back : 8 + (m - 8) ≡ m = omega arith in
              rw (second (8 * off + m), eq→== ((8 * off + m) / 8) (off + 1) at, off8)
                (bit_high_byte v (m - 8) (omega arith) ∙ ap (bit v) back)
        ];
        outside = λ n out.
            rw
              (
                second n,
                ne→== (n / 8) (off + 1) (omega arith),
                first n,
                ne→== (n / 8) off (omega arith),
              )
              refl;
      })

pub bit_from_blocks_lem :
    (input : List Block) (i : ℕ)
    → i < 128 * length input
    → bit_from_blocks input i ≡ ok (bit_at input i)
unfolding bit_from_blocks bit
bit_from_blocks_lem input i h =
    let place : 8 * (i / 8) + i % 8 ≡ i = omega arith in
    rw (load_byte_lem input (i / 8) (omega arith)) (
      ap ok
        (bit_and-one _ ∙ bit-byte_at input (i / 8) (i % 8) (omega arith) ∙ ap (bit_at input) place))

pub bit_from_blocks_fault :
    (input : List Block) (i : ℕ) → 128 * length input ≤ i → bit_from_blocks input i ≡ fault
unfolding bit_from_blocks
bit_from_blocks_fault input i h = rw (load_byte_fault input (i / 8) (omega arith)) refl

-- Within the vector `bit_from_blocks` returns the bit that its index counts to; past it, it reads
-- out of range.
pub bit_from_blocks_range :
    (input : List Block) (i : ℕ)
    → (i < 128 * length input → bit_from_blocks input i ≡ ok (bit_at input i))
      × (128 * length input ≤ i → bit_from_blocks input i ≡ fault)
bit_from_blocks_range input i = (bit_from_blocks_lem input i, bit_from_blocks_fault input i)
