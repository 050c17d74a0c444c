-- ===== src/Examples/Kkrt.antt =====
-- Witnesses of the theorems on the KKRT extension: 256 base transfers, two choices.
use petace_verse.Common.{
  ◌≢◌, get_or, ℕ, length, ◌*◌, ◌/◌, ◌<◌, ◌+◌, List, [], ◌∷◌, ◌≡◌, refl, ok, arith,
}
use petace_verse.Common.Bits.{bit}
use petace_verse.Util.Bytes.{to_bytes, of_bytes}
use petace_verse.Crypto.{seeded}
use petace_verse.Kkrt.Again.{encoder_set_base_ots_again}
use petace_verse.Util.Memory.{Block, bit_at}
use petace_verse.Net.{recv_data, crash, done}
use petace_verse.Net.Run.{here, start, idle}
use petace_verse.Net.Schedules.{OnTheWay}
use petace_verse.Kkrt.Schedules.{encoding_session_ends}
use petace_verse.Kkrt.{
  KkrtNcoOtExtSender, KkrtNcoOtExtReceiver, kkrt_sender, kkrt_receiver, sender_set_base_ots,
  receiver_set_base_ots, send, receive, round_up,
}
use petace_verse.Kkrt.Sizes.{zero_base_encodes, send_wraps}
use petace_verse.Net.Waits.{LeavesWaiting}
use petace_verse.Kkrt.Unequal.{unequal_sizes-LeavesWaiting}
use petace_verse.Kkrt.Encode.{encode}
use petace_verse.Kkrt.Encodes.{encode_returns}
use petace_verse.Kkrt.Transfer.{IsSized, EncodeSynced, Encoded, session_encodes}
use petace_verse.Kkrt.Setup.{set_base_ots-EncodeSynced}
use petace_verse.Examples.Toy.{
  toy, toy-IsCrypto, base_sent, base_received, base_transfer, length-base_sent,
  length-base_received,
}

abbrev two_choices : List Block
two_choices = 0x9234_5678_9abc_def0 ∷ 0xabcd ∷ []

abbrev messages_at : List Block
messages_at = 0xff00_ff00 ∷ 7 ∷ []

abbrev nco_sender : KkrtNcoOtExtSender toy
nco_sender =
    sender_set_base_ots toy (kkrt_sender toy 256) two_choices (base_received two_choices 256)

abbrev nco_receiver : KkrtNcoOtExtReceiver toy
nco_receiver = receiver_set_base_ots toy (kkrt_receiver toy 256) (base_sent 256)

synced : EncodeSynced toy nco_sender nco_receiver
synced =
    set_base_ots-EncodeSynced toy 256 two_choices (base_received two_choices 256) (base_sent 256)
      (omega arith) (omega arith) (omega arith) (length-base_received two_choices 256)
      (length-base_sent 256) (base_transfer two_choices 256)

set_base_ots-EncodeSynced_example : EncodeSynced toy nco_sender nco_receiver
set_base_ots-EncodeSynced_example =
    set_base_ots-EncodeSynced toy 256 two_choices (base_received two_choices 256) (base_sent 256)
      (omega arith) (omega arith) (omega arith) (length-base_received two_choices 256)
      (length-base_sent 256) (base_transfer two_choices 256)

sized : IsSized nco_sender.base_ot_sizes (length messages_at)
unfolding sender_set_base_ots kkrt_sender
sized = omega arith

session_encodes_example : Encoded toy nco_sender nco_receiver messages_at
session_encodes_example =
    session_encodes toy nco_sender nco_receiver messages_at toy-IsCrypto synced sized (omega arith)

-- From the very start the session runs to its end.
encoding_session_ends_example :
    let t =
      session_encodes toy nco_sender nco_receiver messages_at toy-IsCrypto synced sized
        (omega arith) in
    OnTheWay 2 0 (start (send toy nco_sender 2) (receive toy nco_receiver messages_at)) (
      idle 0
        (0 + round_up 2 * (nco_sender.base_ot_sizes / 128) * 16)
        (done (tt, t.sender))
        (done (t.messages, t.receiver)))
encoding_session_ends_example =
    encoding_session_ends toy nco_sender nco_receiver messages_at toy-IsCrypto synced sized
      (omega arith) 0 (start (send toy nco_sender 2) (receive toy nco_receiver messages_at)) here

abbrev one_row : KkrtNcoOtExtSender toy
one_row = record {
  base_ot_sizes = 256;
  ext_ot_sizes = 1;
  base_choices = two_choices;
  prng = [];
  q_mat = (5 ∷ 0xabcd ∷ []) ∷ [];
}

encode_returns_example : (b : Block) × (encode toy one_row 0 7 ≡ ok b)
encode_returns_example = encode_returns toy one_row 0 7 (omega arith) (omega arith) refl

abbrev bare_sender : KkrtNcoOtExtSender toy
bare_sender = sender_set_base_ots toy (kkrt_sender toy 0) [] []

abbrev bare_receiver : KkrtNcoOtExtReceiver toy
bare_receiver = receiver_set_base_ots toy (kkrt_receiver toy 0) []

bare_synced : EncodeSynced toy bare_sender bare_receiver
bare_synced =
    set_base_ots-EncodeSynced toy 0 [] [] [] (omega arith) (omega arith) (omega arith) refl refl
      (λ k lt. absurd (omega arith))

no_base : bare_sender.base_ot_sizes ≡ 0
unfolding sender_set_base_ots kkrt_sender
no_base = refl

zero_base_encodes_example :
    (t : Encoded toy bare_sender bare_receiver messages_at) × ((i : ℕ) (x : Block)
      → encode toy t.sender i x ≡ ok 0)
    × ((i : ℕ) → i < 2 → get_or t.messages i 0 ≡ 0)
zero_base_encodes_example =
    zero_base_encodes toy bare_sender bare_receiver messages_at toy-IsCrypto bare_synced no_base
      (omega arith) (omega arith)

send_wraps_example : send toy nco_sender 0xffff_ffff_ffff_ffff ≡ recv_data 0 (λ bytes. crash)
unfolding sender_set_base_ots kkrt_sender
send_wraps_example =
    send_wraps toy nco_sender 0xffff_ffff_ffff_ffff (omega arith) (omega arith) (omega arith)
      (omega arith)

asked : IsSized nco_sender.base_ot_sizes 300
unfolding sender_set_base_ots kkrt_sender
asked = omega arith

nonempty : 0 < nco_sender.base_ot_sizes
unfolding sender_set_base_ots kkrt_sender
nonempty = omega arith

fewer : round_up (length messages_at) < round_up 300
unfolding round_up
fewer = omega arith

-- The sender asks for 300 transfers, the receiver has two choices.
unequal_sizes-LeavesWaiting_example :
    LeavesWaiting (send toy nco_sender 300) (receive toy nco_receiver messages_at)
unequal_sizes-LeavesWaiting_example =
    unequal_sizes-LeavesWaiting toy nco_sender nco_receiver 300 messages_at toy-IsCrypto synced
      nonempty asked sized (omega arith) fewer

abbrev other_choices : List Block
other_choices = 0x9234_5678_9abc_def1 ∷ 0xabcd ∷ []

new_bit : bit_at other_choices 0 ≢ bit_at nco_sender.base_choices 0
unfolding bit sender_set_base_ots kkrt_sender
new_bit = omega arith

two_generators : (get_or nco_receiver.prng 0 (0, 0)).0 ≢ (get_or nco_receiver.prng 0 (0, 0)).1
unfolding receiver_set_base_ots kkrt_receiver seeded to_bytes of_bytes
two_generators = omega arith

encoder_set_base_ots_again_example :
    ¬ EncodeSynced toy
      (sender_set_base_ots toy nco_sender other_choices (base_received other_choices 256))
      (receiver_set_base_ots toy nco_receiver (base_sent 256))
unfolding kkrt_sender sender_set_base_ots
encoder_set_base_ots_again_example =
    encoder_set_base_ots_again toy nco_sender nco_receiver other_choices
      (base_received other_choices 256) (base_sent 256) 0 (0, 0) synced (omega arith) (omega arith)
      new_bit two_generators
