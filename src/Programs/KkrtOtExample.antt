-- ===== src/Programs/KkrtOtExample.antt =====
-- example/kkrt_ot_example.cpp: 512 base transfers, then 1024 transfers of the KKRT extension with
-- the choices 0, 1, 2, …; the sender prints 16 transfers at 16 values, the receiver 16 messages.
use petace_verse.Common.{ℕ, ◌==◌, if◌then◌else◌, tabulate}
use petace_verse.Util.Memory.{set_epi64x}
use petace_verse.Crypto.{Crypto}
use petace_verse.Curve.{Curve}
use petace_verse.Net.{Proc, lift, ◌>>=◌}
use petace_verse.Factory.{
  VerseParams, build_verse, naor_pinkas_sender_scheme, naor_pinkas_receiver_scheme,
  kkrt_sender_scheme, kkrt_receiver_scheme,
}
use petace_verse.Factory.Registrations.{
  base_ot_sender_factory, base_ot_receiver_factory, nco_ext_ot_sender_factory,
  nco_ext_ot_receiver_factory,
}
use petace_verse.Programs.{Environment, read_block_from_dev_urandom, Output}
use petace_verse.Programs.Prints.{print_encoded, print_messages}

module _ (c : Crypto) (ec : Curve) where
  unfoldable pub kkrt_ot_example : Environment ec → ℕ → Proc Output
  kkrt_ot_example env party_id = do
    let params : VerseParams = record { base_ot_sizes = 512; ext_ot_sizes = 1024 }
    let base_choices = tabulate 4 0 (read_block_from_dev_urandom env)
    let ext_choices = tabulate 1024 0 (set_epi64x 0)
    npot_sender ← lift (
        build_verse (base_ot_sender_factory c ec env.sender_source) naor_pinkas_sender_scheme
          params)
    npot_receiver ← lift (
        build_verse (base_ot_receiver_factory c ec env.receiver_source) naor_pinkas_receiver_scheme
          params)
    kkrt_sender ← lift (build_verse (nco_ext_ot_sender_factory c) kkrt_sender_scheme params)
    kkrt_receiver ← lift (build_verse (nco_ext_ot_receiver_factory c) kkrt_receiver_scheme params)
    (if party_id == 0
        then (npot_receiver.receive npot_receiver.state base_choices >>= λ base.
            kkrt_sender.send (kkrt_sender.set_base_ots kkrt_sender.state base_choices base.0) 1024
            >>= λ r. lift (print_encoded (kkrt_sender.encode r.1)))
        else (npot_sender.send npot_sender.state >>= λ base.
            kkrt_receiver.receive (kkrt_receiver.set_base_ots kkrt_receiver.state base.0)
              ext_choices
            >>= λ r. lift (print_messages r.0 ext_choices)))
