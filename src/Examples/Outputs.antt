-- ===== src/Examples/Outputs.antt =====
-- A witness of the theorem on the messages of all protocols.
use petace_verse.Common.{List, [], ◌∷◌}
use petace_verse.Common.Holds.{Holds}
use petace_verse.Util.Memory.{Block, IsBlock}
use petace_verse.Net.Gives.{Gives}
use petace_verse.NaorPinkas as NaorPinkas
use petace_verse.NaorPinkas.{
  NaorPinkasSender, NaorPinkasReceiver, naor_pinkas_sender, naor_pinkas_receiver,
}
use petace_verse.Iknp as Iknp
use petace_verse.Iknp.{IknpOtExtSender, IknpOtExtReceiver, iknp_sender, iknp_receiver}
use petace_verse.Kkrt as Kkrt
use petace_verse.Kkrt.{KkrtNcoOtExtSender, KkrtNcoOtExtReceiver, kkrt_sender, kkrt_receiver}
use petace_verse.Kkrt.Encode.{encode}
use petace_verse.Outputs.{IsPairs, IsMessages}
use petace_verse.Outputs.Protocols.{protocols-Gives}
use petace_verse.Examples.Toy.{toy, toy-IsCrypto, base_sent, base_received}
use petace_verse.Examples.NaorPinkas.{pair_group}

abbrev two_choices : List Block
two_choices = 0x9234_5678_9abc_def0 ∷ 0xabcd ∷ []

abbrev iknp_object_0 : IknpOtExtSender toy
iknp_object_0 =
    Iknp.sender_set_base_ots toy (iknp_sender toy 128 256) two_choices
      (base_received two_choices 128)

abbrev iknp_object_1 : IknpOtExtReceiver toy
iknp_object_1 = Iknp.receiver_set_base_ots toy (iknp_receiver toy 128 256) (base_sent 128)

abbrev kkrt_object_0 : KkrtNcoOtExtSender toy
kkrt_object_0 =
    Kkrt.sender_set_base_ots toy (kkrt_sender toy 256) two_choices (base_received two_choices 256)

abbrev kkrt_object_1 : KkrtNcoOtExtReceiver toy
kkrt_object_1 = Kkrt.receiver_set_base_ots toy (kkrt_receiver toy 256) (base_sent 256)

protocols-Gives_example :
    Gives
      (λ (r : List (Block × Block) × NaorPinkasSender pair_group). IsPairs 128 r.0)
      (NaorPinkas.send toy pair_group (naor_pinkas_sender pair_group 128 5))
    × Gives
        (λ (r : List Block × NaorPinkasReceiver pair_group). IsMessages 128 r.0)
        (NaorPinkas.receive toy pair_group (naor_pinkas_receiver pair_group 128 9) two_choices)
    × Gives
        (λ (r : List (Block × Block) × IknpOtExtSender toy). IsPairs 256 r.0)
        (Iknp.send toy iknp_object_0)
    × Gives
        (λ (r : List Block × IknpOtExtReceiver toy). IsMessages 256 r.0)
        (Iknp.receive toy iknp_object_1 two_choices)
    × Gives
        (λ (r : List Block × KkrtNcoOtExtReceiver toy). IsMessages 2 r.0)
        (Kkrt.receive toy kkrt_object_1 two_choices)
    × Holds IsBlock (encode toy kkrt_object_0 0 3)
unfolding naor_pinkas_sender naor_pinkas_receiver iknp_sender iknp_receiver Iknp.sender_set_base_ots
    Iknp.receiver_set_base_ots
protocols-Gives_example =
    protocols-Gives toy pair_group toy-IsCrypto (naor_pinkas_sender pair_group 128 5)
      (naor_pinkas_receiver pair_group 128 9) iknp_object_0 iknp_object_1 kkrt_object_0
      kkrt_object_1 two_choices 0 3
