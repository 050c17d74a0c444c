-- ===== src/Programs/IknpOtExample.antt =====
-- example/iknp_ot_example.cpp: 128 base transfers, then 1024 transfers of the IKNP extension.
use petace_verse.Common.{ℕ, ◌/◌, [], ◌∷◌, ◌==◌, if◌then◌else◌, tabulate}
use petace_verse.Crypto.{Crypto}
use petace_verse.Curve.{Curve}
use petace_verse.Net.{Proc, lift, ◌>>=◌}
use petace_verse.Factory.{
  VerseParams, build_verse, naor_pinkas_sender_scheme, naor_pinkas_receiver_scheme,
  iknp_sender_scheme, iknp_receiver_scheme,
}
use petace_verse.Factory.Registrations.{
  base_ot_sender_factory, base_ot_receiver_factory, ext_ot_sender_factory, ext_ot_receiver_factory,
}
use petace_verse.Programs.{
  Environment, read_block_from_dev_urandom, Output, print_pairs, print_chosen,
}

module _ (c : Crypto) (ec : Curve) where
  -- The loop over `ext_ot_sizes / sizeof(block)` draws 64 blocks of choices.
  unfoldable pub iknp_ot_example : Environment ec → ℕ → Proc Output
  iknp_ot_example env party_id = do
    let params : VerseParams = record { base_ot_sizes = 128; ext_ot_sizes = 1024 }
    let base_choices = read_block_from_dev_urandom env 0 ∷ []
    let ext_choices = tabulate (1024 / 16) 1 (read_block_from_dev_urandom env)
    npot_sender ← lift (
        build_verse (base_ot_sender_factory c ec env.sender_source) naor_pinkas_sender_scheme
          params)
    npot_receiver ← lift (
        build_verse (base_ot_receiver_factory c ec env.receiver_source) naor_pinkas_receiver_scheme
          params)
    iknp_sender ← lift (build_verse (ext_ot_sender_factory c) iknp_sender_scheme params)
    iknp_receiver ← lift (build_verse (ext_ot_receiver_factory c) iknp_receiver_scheme params)
    (if party_id == 0
        then (npot_receiver.receive npot_receiver.state base_choices >>= λ base.
            iknp_sender.send (iknp_sender.set_base_ots iknp_sender.state base_choices base.0)
            >>= λ r. lift (print_pairs 1024 r.0))
        else (npot_sender.send npot_sender.state >>= λ base.
            iknp_receiver.receive (iknp_receiver.set_base_ots iknp_receiver.state base.0)
              ext_choices
            >>= λ r. lift (print_chosen 1024 r.0 ext_choices)))
