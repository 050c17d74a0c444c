-- ===== src/Programs/Prints.antt =====
-- The loops of kkrt_ot_example.cpp that print.
pub mod Encoded
use mathlib.Core.List.{flatten}
use petace_verse.Common.{ℕ, List, [], ◌∷◌, ◌++◌, Outcome, ok, ◌>>=◌, load, build}
use petace_verse.Util.Memory.{Block, set_epi64x}
use petace_verse.Programs.{Output, low_half, high_half}

-- The sender's: for each of 16 transfers its index, the messages at 0 to 15, and an empty line.
unfoldable pub print_encoded : (ℕ → Block → Outcome Block) → Outcome Output
print_encoded encode = do
  parts ← build 16 0 λ i. do
    lines ←
        build 16 0
          λ j. do output ← encode i (set_epi64x 0 j); ok (low_half output ∷ high_half output ∷ [])
    ok ((i ∷ []) ∷ lines ++ [] ∷ [])
  ok (flatten parts)

-- The receiver's: for each of 16 transfers its index, and the message with the choice.
unfoldable pub print_messages : List Block → List Block → Outcome Output
print_messages messages choices = do
  parts ← build 16 0 λ i. do
    m ← load messages i
    choice ← load choices i
    ok ((i ∷ []) ∷ (low_half m ∷ high_half m ∷ low_half choice ∷ []) ∷ [])
  ok (flatten parts)
