-- ===== src/Kkrt/Encode.antt =====
-- `KkrtNcoOtExtSender::encode`: the sender's message of a transfer at a chosen value.
use petace_verse.Common.{ℕ, ◌/◌, bit_xor, Outcome, ok, ◌>>=◌, load}
use petace_verse.Util.Memory.{Block}
use petace_verse.Crypto.{Crypto}
use petace_verse.Kkrt.{KkrtNcoOtExtSender}
use petace_verse.Kkrt.Matrix.{load_2d, chain, encoded_input}

module _ (c : Crypto) where
  unfoldable pub encode : KkrtNcoOtExtSender c → ℕ → Block → Outcome Block
  encode s idx input = do
    let threshhold = s.base_ot_sizes / 128
    enc_input ← encoded_input c threshhold s.base_choices input
    chain c threshhold idx λ j. do e ← load enc_input j; q ← load_2d s.q_mat idx j; ok (bit_xor e q)
