-- ===== src/Util/Memory.antt =====
-- A `std::vector<block>` read and written by bytes, as `reinterpret_cast` does.
-- A `block` (`__m128i`) is the number that its 128 bits stand for, lowest byte first.
pub mod Laws
pub mod Stores
use petace_verse.Common.{
  ℕ, ◌+◌, ◌*◌, ◌/◌, ◌%◌, ◌^◌, ◌<◌, bit_and, List, Outcome, ok, ◌>>=◌, load, store, get_or,
}
use petace_verse.Common.Bits.{bit}

abbrev pub Block : Type 0
Block = ℕ

-- The number fits 128 bits.
abbrev pub IsBlock : Block → Type 0
IsBlock b = b < 2 ^ 128

-- `reinterpret_cast<char*>(v.data())[off]`, read.
unfoldable pub load_byte : List Block → ℕ → Outcome ℕ
load_byte mem off = do b ← load mem (off / 16); ok (b / 2 ^ (8 * (off % 16)) % 2 ^ 8)

-- The block with byte `i` overwritten.
pub with_byte : Block → ℕ → ℕ → Block
with_byte b i v = b / 2 ^ (8 * i + 8) * 2 ^ (8 * i + 8) + (v * 2 ^ (8 * i) + b % 2 ^ (8 * i))

-- `reinterpret_cast<char*>(v.data())[off]`, written.
unfoldable pub store_byte : List Block → ℕ → ℕ → Outcome (List Block)
unfolding with_byte
store_byte mem off v = do b ← load mem (off / 16); store mem (off / 16) (with_byte b (off % 16) v)

-- A `uint16_t` written at a byte offset, low byte first.
unfoldable pub store_u16 : List Block → ℕ → ℕ → Outcome (List Block)
store_u16 mem off v = do
  half ← store_byte mem off (v % 2 ^ 8)
  store_byte half (off + 1) (v / 2 ^ 8 % 2 ^ 8)

-- `bit_from_blocks`: one bit of the vector, found through its bytes.
unfoldable pub bit_from_blocks : List Block → ℕ → Outcome ℕ
unfolding load_byte
bit_from_blocks input ids_of_bits = do
  byte ← load_byte input (ids_of_bits / 8)
  ok (bit_and (byte / 2 ^ (ids_of_bits % 8)) 1)

-- Bit `n` of the vector, counted from the lowest bit of its first block.
abbrev pub bit_at : List Block → ℕ → ℕ
bit_at mem n = bit (get_or mem (n / 128) 0) (n % 128)

-- `_mm_set_epi64x(e1, e0)`
unfoldable pub set_epi64x : ℕ → ℕ → Block
set_epi64x e1 e0 = e1 % 2 ^ 64 * 2 ^ 64 + e0 % 2 ^ 64
