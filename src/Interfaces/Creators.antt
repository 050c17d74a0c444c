-- ===== src/Interfaces/Creators.antt =====
-- The six creators: a new object of a protocol's class, seen as its abstract class. The source of
-- randomness that a Naor-Pinkas constructor creates is an argument.
use petace_verse.Crypto.{Crypto}
use petace_verse.Curve.{Curve}
use petace_verse.Factory.{VerseParams}
use petace_verse.Interfaces.{
  BaseOtSender, BaseOtReceiver, OtExtSender, OtExtReceiver, NcoOtExtSender, NcoOtExtReceiver,
}
use petace_verse.NaorPinkas as NaorPinkas
use petace_verse.Iknp as Iknp
use petace_verse.Kkrt as Kkrt
use petace_verse.Kkrt.Encode.{encode}

module _ (c : Crypto) (ec : Curve) (prng : ec.Source) where
  abbrev pub create_naor_pinkas_sender : VerseParams → BaseOtSender
  create_naor_pinkas_sender params = record {
    State = NaorPinkas.NaorPinkasSender ec;
    state = NaorPinkas.naor_pinkas_sender ec params.base_ot_sizes prng;
    send = NaorPinkas.send c ec;
  }

  abbrev pub create_naor_pinkas_receiver : VerseParams → BaseOtReceiver
  create_naor_pinkas_receiver params = record {
    State = NaorPinkas.NaorPinkasReceiver ec;
    state = NaorPinkas.naor_pinkas_receiver ec params.base_ot_sizes prng;
    receive = NaorPinkas.receive c ec;
  }

module _ (c : Crypto) where
  abbrev pub create_iknp_ext_sender : VerseParams → OtExtSender
  create_iknp_ext_sender params = record {
    State = Iknp.IknpOtExtSender c;
    state = Iknp.iknp_sender c params.base_ot_sizes params.ext_ot_sizes;
    set_base_ots = Iknp.sender_set_base_ots c;
    send = Iknp.send c;
  }

  abbrev pub create_iknp_ext_receiver : VerseParams → OtExtReceiver
  create_iknp_ext_receiver params = record {
    State = Iknp.IknpOtExtReceiver c;
    state = Iknp.iknp_receiver c params.base_ot_sizes params.ext_ot_sizes;
    set_base_ots = Iknp.receiver_set_base_ots c;
    receive = Iknp.receive c;
  }

  abbrev pub create_kkrt_ext_sender : VerseParams → NcoOtExtSender
  create_kkrt_ext_sender params = record {
    State = Kkrt.KkrtNcoOtExtSender c;
    state = Kkrt.kkrt_sender c params.base_ot_sizes;
    set_base_ots = Kkrt.sender_set_base_ots c;
    send = Kkrt.send c;
    encode = encode c;
  }

  abbrev pub create_kkrt_ext_receiver : VerseParams → NcoOtExtReceiver
  create_kkrt_ext_receiver params = record {
    State = Kkrt.KkrtNcoOtExtReceiver c;
    state = Kkrt.kkrt_receiver c params.base_ot_sizes;
    set_base_ots = Kkrt.receiver_set_base_ots c;
    receive = Kkrt.receive c;
  }
