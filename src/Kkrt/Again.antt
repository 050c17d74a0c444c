-- ===== src/Kkrt/Again.antt =====
-- `set_base_ots` of objects that are set up already.
use petace_verse.Common.{ℕ, ◌*◌, ◌≤◌, ◌<◌, List, length, get_or, ◌≢◌, arith}
use petace_verse.Util.Memory.{Block, bit_at}
use petace_verse.Crypto.{Crypto}
use petace_verse.Pairing.Again.{again-unpaired}
use petace_verse.Kkrt.{
  KkrtNcoOtExtSender, KkrtNcoOtExtReceiver, sender_set_base_ots, receiver_set_base_ots,
}
use petace_verse.Kkrt.Transfer.{EncodeSynced}

module _ (c : Crypto) where
  -- When objects that are set up for sessions take further base transfers, with as many choices as
  -- their base size or more, they are not set up for sessions, whatever the messages of these
  -- transfers, once at one transfer of the base size the new choice bit is not the old one
  -- and the receiver's two generators are different.
  pub encoder_set_base_ots_again :
      (s : KkrtNcoOtExtSender c) (r : KkrtNcoOtExtReceiver c) (choices recv : List Block)
      (sent : List (Block × Block)) (k : ℕ) (q : c.Prng × c.Prng)
      → EncodeSynced c s r
      → s.base_ot_sizes ≤ 128 * length choices
      → k < s.base_ot_sizes
      → bit_at choices k ≢ bit_at s.base_choices k
      → (get_or r.prng k q).0 ≢ (get_or r.prng k q).1
      → ¬ EncodeSynced c (sender_set_base_ots c s choices recv) (receiver_set_base_ots c r sent)
  unfolding sender_set_base_ots receiver_set_base_ots
  encoder_set_base_ots_again s r choices recv sent k q sync some lt bits apart again =
      again-unpaired c s.base_choices choices k s.prng _ r.prng _ q sync.paired
        (omega (arith, sync.enough)) (omega arith) bits apart again.paired
