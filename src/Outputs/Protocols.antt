-- ===== src/Outputs/Protocols.antt =====
-- The messages of all protocols, over a network that may deliver any bytes.
use petace_verse.Common.{ℕ, List, length}
use petace_verse.Common.Holds.{Holds}
use petace_verse.Util.Memory.{Block, IsBlock}
use petace_verse.Crypto.{Crypto, IsCrypto}
use petace_verse.Curve.{Curve}
use petace_verse.Net.Gives.{Gives}
use petace_verse.NaorPinkas as NaorPinkas
use petace_verse.NaorPinkas.{NaorPinkasSender, NaorPinkasReceiver}
use petace_verse.NaorPinkas.Outputs as BaseOutputs
use petace_verse.Iknp as Iknp
use petace_verse.Iknp.{IknpOtExtSender, IknpOtExtReceiver}
use petace_verse.Iknp.Outputs as IknpOutputs
use petace_verse.Kkrt as Kkrt
use petace_verse.Kkrt.{KkrtNcoOtExtSender, KkrtNcoOtExtReceiver}
use petace_verse.Kkrt.Encode.{encode}
use petace_verse.Kkrt.Outputs as KkrtOutputs
use petace_verse.Outputs.{IsPairs, IsMessages}

-- Under the laws of the generators and the hash, whatever bytes the other party sends and whatever
-- state the objects are in: if a method of a protocol returns messages, they are blocks of 128 bits,
-- as many as its object was created for, or for the KKRT receiver as many as the choices; and a
-- value that `encode` returns is a block.
pub protocols-Gives :
    (c : Crypto) (ec : Curve)
    → IsCrypto c
    → (base_sender : NaorPinkasSender ec) (base_receiver : NaorPinkasReceiver ec)
      (sender : IknpOtExtSender c) (receiver : IknpOtExtReceiver c)
      (nco_sender : KkrtNcoOtExtSender c) (nco_receiver : KkrtNcoOtExtReceiver c)
      (choices : List Block) (i : ℕ) (x : Block)
    → Gives
        (λ (r : List (Block × Block) × NaorPinkasSender ec). IsPairs base_sender.base_ot_sizes r.0)
        (NaorPinkas.send c ec base_sender)
      × Gives
          (λ (r : List Block × NaorPinkasReceiver ec). IsMessages base_receiver.base_ot_sizes r.0)
          (NaorPinkas.receive c ec base_receiver choices)
      × Gives
          (λ (r : List (Block × Block) × IknpOtExtSender c). IsPairs sender.ext_ot_sizes r.0)
          (Iknp.send c sender)
      × Gives
          (λ (r : List Block × IknpOtExtReceiver c). IsMessages receiver.ext_ot_sizes r.0)
          (Iknp.receive c receiver choices)
      × Gives
          (λ (r : List Block × KkrtNcoOtExtReceiver c). IsMessages (length choices) r.0)
          (Kkrt.receive c nco_receiver choices)
      × Holds IsBlock (encode c nco_sender i x)
protocols-Gives c ec w base_sender base_receiver sender receiver nco_sender nco_receiver choices i
      x =
    (
      BaseOutputs.sender-Gives c ec w base_sender,
      BaseOutputs.receiver-Gives c ec w base_receiver choices,
      IknpOutputs.sender-Gives c w sender,
      IknpOutputs.receiver-Gives c w receiver choices,
      KkrtOutputs.receiver-Gives c w nco_receiver choices,
      KkrtOutputs.encode-Holds c w nco_sender i x,
    )
