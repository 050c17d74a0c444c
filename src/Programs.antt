-- ===== src/Programs.antt =====
-- The programs under example and bench: what each party runs, over the factories and the abstract
-- classes. Connections and the command line's parser are not part of them.
pub mod Menu
pub mod Prints
pub mod Printed
pub mod BasePhase
pub mod IknpPhase
pub mod KkrtPhase
pub mod NpOtExample
pub mod IknpOtExample
pub mod KkrtOtExample
pub mod NpOtRun
pub mod IknpOtRun
pub mod KkrtOtRun
use petace_verse.Common.{
  ℕ, ◌/◌, ◌%◌, ◌^◌, ◌≡◌, List, [], ◌∷◌, length, All, arith, Outcome, ok, ◌>>=◌, load, build,
}
use petace_verse.Util.Memory.{Block, IsBlock, bit_from_blocks}
use petace_verse.Util.Bytes.{IsByte, of_bytes, of_bytes-IsBlock}
use petace_verse.Curve.{Curve}

-- The randomness of the system that one party draws: the blocks that it reads, in order, and the
-- sources that its two Naor-Pinkas objects create.
pub record Environment (ec : Curve) : Type 0 where
  pub random_bytes : ℕ → List ℕ
  pub sender_source : ec.Source
  pub receiver_source : ec.Source

-- Each read gives 16 bytes.
pub record IsEnvironment {ec : Curve} (env : Environment ec) : Type 0 where
  pub bytes : (n : ℕ) → All IsByte (env.random_bytes n)
  pub sixteen : (n : ℕ) → length (env.random_bytes n) ≡ 16

-- The `n`th call of `read_block_from_dev_urandom`.
unfoldable pub read_block_from_dev_urandom : {ec : Curve} → Environment ec → ℕ → Block
read_block_from_dev_urandom env n = of_bytes (env.random_bytes n)

pub urandom-IsBlock :
    {ec : Curve} (env : Environment ec)
    → IsEnvironment env
    → (n : ℕ) → IsBlock (read_block_from_dev_urandom env n)
unfolding read_block_from_dev_urandom
urandom-IsBlock env w n =
    of_bytes-IsBlock (env.random_bytes n) (w.bytes n) (omega (arith, w.sixteen n))

-- `b[0]` and `b[1]`: the two halves of a block, as they are printed.
abbrev pub low_half : Block → ℕ
low_half b = b % 2 ^ 64

abbrev pub high_half : Block → ℕ
high_half b = b / 2 ^ 64

-- What a program prints: lines of numbers, without titles and separators.
abbrev pub Output : Type 0
Output = List (List ℕ)

-- The loops that print the first `n` messages of a sender, and of a receiver with the choice bits.
unfoldable pub print_pairs : ℕ → List (Block × Block) → Outcome Output
print_pairs n messages = build n 0 λ i. do
  m ← load messages i
  ok (low_half m.0 ∷ high_half m.0 ∷ low_half m.1 ∷ high_half m.1 ∷ [])

unfoldable pub print_chosen : ℕ → List Block → List Block → Outcome Output
print_chosen n messages choices = build n 0 λ i. do
  m ← load messages i
  bit ← bit_from_blocks choices i
  ok (low_half m ∷ high_half m ∷ bit ∷ [])
