-- ===== src/Util/Bytes.antt =====
-- Blocks as bytes in memory and on the wire, lowest byte first.
use native.Mathlib.Nat.{lt_of_lt_of_le, pow-le-pow_right}
use petace_verse.Common.{
  ℕ, zero, suc, ◌+◌, ◌*◌, ◌/◌, ◌%◌, ◌^◌, ◌≤◌, ◌<◌, List, [], ◌∷◌, ◌++◌, ◌≡◌, refl, ap, ap₂, ◌∙◌,
  arith, length, length-append, length-take, take, drop, take-append, drop-append, All,
}
use petace_verse.Common.Bits.{two-pow-add-eight}
use petace_verse.Util.Memory.{Block, IsBlock}

abbrev pub IsByte : ℕ → Type 0
IsByte b = b < 256

-- The lowest `n` bytes of a number.
unfoldable pub to_bytes : ℕ → ℕ → List ℕ
to_bytes zero b = []
to_bytes (suc n) b = b % 2 ^ 8 ∷ to_bytes n (b / 2 ^ 8)

-- The number that bytes stand for.
unfoldable pub of_bytes : List ℕ → ℕ
of_bytes [] = 0
of_bytes (b ∷ bs) = of_bytes bs * 2 ^ 8 + b

-- The memory of a vector of blocks.
unfoldable pub bytes_of_blocks : List Block → List ℕ
unfolding to_bytes
bytes_of_blocks [] = []
bytes_of_blocks (b ∷ bs) = to_bytes 16 b ++ bytes_of_blocks bs

-- A vector of `n` blocks over given bytes.
unfoldable pub blocks_of_bytes : ℕ → List ℕ → List Block
unfolding of_bytes
blocks_of_bytes zero bytes = []
blocks_of_bytes (suc n) bytes = of_bytes (take 16 bytes) ∷ blocks_of_bytes n (drop 16 bytes)

pub length-to_bytes : (n b : ℕ) → length (to_bytes n b) ≡ n
unfolding to_bytes
length-to_bytes zero b = refl
length-to_bytes (suc n) b = ap suc (length-to_bytes n (b / 2 ^ 8))

pub of_bytes-lt : (bs : List ℕ) → All IsByte bs → of_bytes bs < 2 ^ (8 * length bs)
unfolding of_bytes
of_bytes-lt [] a = omega arith
of_bytes-lt (b ∷ bs) a =
    let e : 8 * suc (length bs) ≡ 8 * length bs + 8 = omega arith in
    rw (e, two-pow-add-eight (8 * length bs)) (omega (arith, of_bytes-lt bs a.1, a.0))

pub of_bytes-to_bytes : (n b : ℕ) → b < 2 ^ (8 * n) → of_bytes (to_bytes n b) ≡ b
unfolding of_bytes to_bytes
of_bytes-to_bytes zero b h = omega arith
of_bytes-to_bytes (suc n) b h =
    let e : 8 * suc n ≡ 8 * n + 8 = omega arith in
    let h' : b < 2 ^ (8 * n) * 256 = rw (e, two-pow-add-eight (8 * n)) at h in
    omega (arith, of_bytes-to_bytes n (b / 2 ^ 8) (omega arith))

pub length-bytes_of_blocks : (bs : List Block) → length (bytes_of_blocks bs) ≡ length bs * 16
unfolding bytes_of_blocks
length-bytes_of_blocks [] = omega arith
length-bytes_of_blocks (b ∷ bs) = omega (
  arith,
  length-append (to_bytes 16 b) (bytes_of_blocks bs),
  length-to_bytes 16 b,
  length-bytes_of_blocks bs,
)

pub length-blocks_of_bytes : (n : ℕ) (bytes : List ℕ) → length (blocks_of_bytes n bytes) ≡ n
unfolding blocks_of_bytes
length-blocks_of_bytes zero bytes = refl
length-blocks_of_bytes (suc n) bytes = ap suc (length-blocks_of_bytes n (drop 16 bytes))

-- Blocks are read back from the bytes that they were written to.
pub blocks_of_bytes-bytes_of_blocks :
    (bs : List Block) → All IsBlock bs → blocks_of_bytes (length bs) (bytes_of_blocks bs) ≡ bs
unfolding blocks_of_bytes bytes_of_blocks
blocks_of_bytes-bytes_of_blocks [] a = refl
blocks_of_bytes-bytes_of_blocks (b ∷ bs) a =
    let w = to_bytes 16 b in
    let front = take-append 16 w (bytes_of_blocks bs) (length-to_bytes 16 b) in
    let rest = drop-append 16 w (bytes_of_blocks bs) (length-to_bytes 16 b) in
    ap₂ ◌∷◌ (ap of_bytes front ∙ of_bytes-to_bytes 16 b a.0)
      (ap (blocks_of_bytes (length bs)) rest ∙ blocks_of_bytes-bytes_of_blocks bs a.1)

All-take : (n : ℕ) (bs : List ℕ) → All IsByte bs → All IsByte (take n bs)
All-take zero bs a = tt
All-take (suc n) [] a = tt
All-take (suc n) (b ∷ bs) a = (a.0, All-take n bs a.1)

All-drop : (n : ℕ) (bs : List ℕ) → All IsByte bs → All IsByte (drop n bs)
All-drop zero bs a = a
All-drop (suc n) [] a = tt
All-drop (suc n) (b ∷ bs) a = All-drop n bs a.1

-- Sixteen bytes make a block, and so do fewer.
pub of_bytes-IsBlock : (bs : List ℕ) → All IsByte bs → length bs ≤ 16 → IsBlock (of_bytes bs)
of_bytes-IsBlock bs a h =
    lt_of_lt_of_le (of_bytes-lt bs a)
      (pow-le-pow_right {n = 2} (omega arith) {j = 128} (omega arith))

pub blocks_of_bytes-IsBlock :
    (n : ℕ) (bytes : List ℕ) → All IsByte bytes → All IsBlock (blocks_of_bytes n bytes)
unfolding blocks_of_bytes
blocks_of_bytes-IsBlock zero bytes a = tt
blocks_of_bytes-IsBlock (suc n) bytes a = (
  of_bytes-IsBlock (take 16 bytes) (All-take 16 bytes a) (omega (arith, length-take 16 bytes)),
  blocks_of_bytes-IsBlock n (drop 16 bytes) (All-drop 16 bytes a),
)
