-- ===== src/Outputs.antt =====
-- The messages that the protocols give.
pub mod Protocols
use petace_verse.Common.{ℕ, List, length, All, ◌≡◌}
use petace_verse.Util.Memory.{Block, IsBlock}

-- Pairs of blocks, and blocks, one for each transfer.
abbrev pub IsPairs : ℕ → List (Block × Block) → Type 0
IsPairs n messages =
    (length messages ≡ n) × All (λ (m : Block × Block). IsBlock m.0 × IsBlock m.1) messages

abbrev pub IsMessages : ℕ → List Block → Type 0
IsMessages n messages = (length messages ≡ n) × All IsBlock messages
