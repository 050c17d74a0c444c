-- ===== src/Examples/Iknp.antt =====
-- Witnesses of the theorems on the IKNP extension: 128 base transfers, 128 extended ones.
use petace_verse.Common.{get_or, ◌≢◌, ◌<◌, ◌+◌, length, ◌*◌, ◌≤◌, List, [], ◌∷◌, refl, arith}
use petace_verse.Common.Bits.{bit}
use petace_verse.Util.Bytes.{to_bytes, of_bytes}
use petace_verse.Crypto.{seeded}
use petace_verse.Iknp.Again.{set_base_ots_again}
use petace_verse.Util.Memory.{Block, bit_at}
use petace_verse.Net.{crash, done}
use petace_verse.Net.Run.{Steps, here, start, idle}
use petace_verse.Net.Schedules.{OnTheWay}
use petace_verse.Iknp.Schedules.{session_ends}
use petace_verse.Iknp.{
  IknpOtExtSender, IknpOtExtReceiver, iknp_sender, iknp_receiver, sender_set_base_ots,
  receiver_set_base_ots, send, receive,
}
use petace_verse.Iknp.Transfer.{Synced, Transferred, session_transfers}
use petace_verse.Net.Waits.{LeavesWaiting}
use petace_verse.Iknp.Unequal.{short_receiver-LeavesWaiting}
use petace_verse.Net.Crashes.{Crashes}
use petace_verse.Iknp.Wide.{wide_receiver-Crashes}
use petace_verse.Iknp.Sizes.{zero_base_crashes}
use petace_verse.Iknp.Setup.{set_base_ots-Synced}
use petace_verse.Examples.Toy.{
  toy, toy-IsCrypto, base_sent, base_received, base_transfer, length-base_sent,
  length-base_received,
}

abbrev base_choices : List Block
base_choices = 0x9234_5678_9abc_def0 ∷ []

abbrev ext_choices : List Block
ext_choices = 0xff00_ff00 ∷ []

abbrev sender : IknpOtExtSender toy
sender =
    sender_set_base_ots toy (iknp_sender toy 128 128) base_choices (base_received base_choices 128)

abbrev receiver : IknpOtExtReceiver toy
receiver = receiver_set_base_ots toy (iknp_receiver toy 128 128) (base_sent 128)

synced : Synced toy sender receiver
synced =
    set_base_ots-Synced toy 128 base_choices (base_received base_choices 128) (base_sent 128)
      (omega arith) (omega arith) (omega arith) (omega arith) (omega arith)
      (length-base_received base_choices 128) (length-base_sent 128)
      (base_transfer base_choices 128)

enough : sender.ext_ot_sizes ≤ 128 * length ext_choices
unfolding sender_set_base_ots iknp_sender
enough = omega arith

set_base_ots-Synced_example : Synced toy sender receiver
set_base_ots-Synced_example =
    set_base_ots-Synced toy 128 base_choices (base_received base_choices 128) (base_sent 128)
      (omega arith) (omega arith) (omega arith) (omega arith) (omega arith)
      (length-base_received base_choices 128) (length-base_sent 128)
      (base_transfer base_choices 128)

session_transfers_example : Transferred toy sender receiver ext_choices
session_transfers_example =
    session_transfers toy sender receiver ext_choices toy-IsCrypto synced enough (omega arith)

zero_base_crashes_example :
    Steps 2
      (start (send toy (iknp_sender toy 0 128)) (receive toy (iknp_receiver toy 0 128) ext_choices))
      (idle 0 0 crash crash)
unfolding iknp_sender iknp_receiver
zero_base_crashes_example =
    zero_base_crashes toy (iknp_sender toy 0 128) (iknp_receiver toy 0 128) ext_choices (refl, refl)
      (refl, refl) (omega arith, omega arith)

-- From the very start the session runs to its end.
session_ends_example :
    let t =
      session_transfers toy sender receiver ext_choices toy-IsCrypto synced enough (omega arith) in
    OnTheWay 2 0 (start (send toy sender) (receive toy receiver ext_choices)) (
      idle 0
        (0 + sender.ext_ot_sizes * 16)
        (done (t.sent, t.sender))
        (done (t.received, t.receiver)))
session_ends_example =
    session_ends toy sender receiver ext_choices toy-IsCrypto synced enough (omega arith) 0
      (start (send toy sender) (receive toy receiver ext_choices)) here

wide_receiver-Crashes_example : Crashes (receive toy (iknp_receiver toy 256 128) ext_choices)
unfolding iknp_receiver
wide_receiver-Crashes_example =
    wide_receiver-Crashes toy (iknp_receiver toy 256 128) ext_choices refl (omega arith)
      (omega arith) refl (omega arith)

abbrev big_sender : IknpOtExtSender toy
big_sender =
    sender_set_base_ots toy (iknp_sender toy 128 256) base_choices (base_received base_choices 128)

abbrev big_receiver : IknpOtExtReceiver toy
big_receiver = receiver_set_base_ots toy (iknp_receiver toy 128 256) (base_sent 128)

big_synced : Synced toy big_sender big_receiver
big_synced =
    set_base_ots-Synced toy 256 base_choices (base_received base_choices 128) (base_sent 128)
      (omega arith) (omega arith) (omega arith) (omega arith) (omega arith)
      (length-base_received base_choices 128) (length-base_sent 128)
      (base_transfer base_choices 128)

fewer : 128 < big_sender.ext_ot_sizes
unfolding sender_set_base_ots iknp_sender
fewer = omega arith

-- The sender was built for 256 extended transfers, the receiver for 128.
short_receiver-LeavesWaiting_example :
    LeavesWaiting
      (send toy big_sender)
      (receive toy (record big_receiver { ext_ot_sizes = 128 }) ext_choices)
short_receiver-LeavesWaiting_example =
    short_receiver-LeavesWaiting toy big_sender big_receiver 128 ext_choices toy-IsCrypto big_synced
      (omega arith) refl fewer (omega arith) (omega arith)

abbrev other_choices : List Block
other_choices = 0x9234_5678_9abc_def1 ∷ []

new_bit : bit_at other_choices 0 ≢ bit_at sender.base_choices 0
unfolding bit sender_set_base_ots iknp_sender
new_bit = omega arith

two_generators : (get_or receiver.prng 0 (0, 0)).0 ≢ (get_or receiver.prng 0 (0, 0)).1
unfolding receiver_set_base_ots iknp_receiver seeded to_bytes of_bytes
two_generators = omega arith

set_base_ots_again_example :
    ¬ Synced toy
      (sender_set_base_ots toy sender other_choices (base_received other_choices 128))
      (receiver_set_base_ots toy receiver (base_sent 128))
set_base_ots_again_example =
    set_base_ots_again toy sender receiver other_choices (base_received other_choices 128)
      (base_sent 128) 0 (0, 0) synced (omega arith) (omega arith) new_bit two_generators
