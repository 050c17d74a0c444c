-- ===== src/Crypto.antt =====
-- What the protocols take from PETAce-Solo: seeded generators and a hash. Both are parameters.
use petace_verse.Common.{
  ℕ, ◌*◌, ◌≡◌, ◌<◌, ◌==◌, if◌then◌else◌, Outcome, ok, fault, ne→==, false, refl, List, All, length,
  arith,
}
use petace_verse.Util.Memory.{Block, IsBlock}
use petace_verse.Util.Bytes.{
  IsByte, to_bytes, of_bytes, blocks_of_bytes, of_bytes-IsBlock, blocks_of_bytes-IsBlock,
  length-blocks_of_bytes,
}

pub record Crypto : Type 1 where
  pub Prng : Type 0
  -- `PRNGFactory::create(seed)`
  pub create : List ℕ → Prng
  -- `PRNG::generate(nbytes, out)`: the bytes, and the generator after it
  pub generate : Prng → ℕ → List ℕ × Prng
  -- `Hash::compute(in, out)` of SHA-256, cut to the length of the output buffer
  pub compute : List ℕ → ℕ → List ℕ

-- The outputs are bytes, and as many as asked for.
pub record IsCrypto (c : Crypto) : Type 0 where
  pub generate_bytes : (p : c.Prng) (n : ℕ) → All IsByte (c.generate p n).0
  pub compute_bytes : (bs : List ℕ) (n : ℕ) → All IsByte (c.compute bs n)
  pub compute_length : (bs : List ℕ) (n : ℕ) → length (c.compute bs n) ≡ n

module _ (c : Crypto) where
  -- A generator seeded with the bytes of a block.
  unfoldable pub seeded : Block → c.Prng
  seeded seed = c.create (to_bytes 16 seed)

  -- `generate` into `n` blocks.
  unfoldable pub generate_blocks : c.Prng → ℕ → List Block × c.Prng
  generate_blocks p n = let r = c.generate p (n * 16) in (blocks_of_bytes n r.0, r.1)

  -- `generate(n * sizeof(block), &row[0])` into a row of `n` blocks: an empty row has no element 0.
  unfoldable pub generate_row : c.Prng → ℕ → Outcome (List Block × c.Prng)
  generate_row p n = if n == 0 then fault else ok (generate_blocks p n)

  pub generate_row-eq : (p : c.Prng) (n : ℕ) → 0 < n → generate_row p n ≡ ok (generate_blocks p n)
  unfolding generate_row
  generate_row-eq p n h =
      let e : (n == 0) ≡ false = ne→== n 0 (λ z. absurd (omega arith)) in rw e refl

  -- The hash of one block into one block.
  unfoldable pub hash_block : Block → Block
  hash_block b = of_bytes (c.compute (to_bytes 16 b) 16)

  pub hash_block-IsBlock : IsCrypto c → (b : Block) → IsBlock (hash_block b)
  unfolding hash_block
  hash_block-IsBlock w b =
      of_bytes-IsBlock (c.compute (to_bytes 16 b) 16) (w.compute_bytes (to_bytes 16 b) 16)
        (omega (arith, w.compute_length (to_bytes 16 b) 16))

  pub generate_blocks-IsBlock :
      IsCrypto c → (p : c.Prng) (n : ℕ) → All IsBlock (generate_blocks p n).0
  unfolding generate_blocks
  generate_blocks-IsBlock w p n = blocks_of_bytes-IsBlock n _ (w.generate_bytes p (n * 16))

  pub length-generate_blocks : (p : c.Prng) (n : ℕ) → length (generate_blocks p n).0 ≡ n
  unfolding generate_blocks
  length-generate_blocks p n = length-blocks_of_bytes n _
