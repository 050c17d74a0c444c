-- ===== src/Programs/NpOtExample.antt =====
-- example/np_ot_example.cpp: 128 base transfers, the sender's pairs and the receiver's choices
-- printed.
use petace_verse.Common.{ℕ, [], ◌∷◌, ◌==◌, if◌then◌else◌}
use petace_verse.Crypto.{Crypto}
use petace_verse.Curve.{Curve}
use petace_verse.Net.{Proc, lift, ◌>>=◌}
use petace_verse.Factory.{
  VerseParams, build_verse, naor_pinkas_sender_scheme, naor_pinkas_receiver_scheme,
}
use petace_verse.Factory.Registrations.{base_ot_sender_factory, base_ot_receiver_factory}
use petace_verse.Programs.{
  Environment, read_block_from_dev_urandom, Output, print_pairs, print_chosen,
}

module _ (c : Crypto) (ec : Curve) where
  -- `ext_ot_sizes` is not set and not used.
  unfoldable pub np_ot_example : Environment ec → ℕ → Proc Output
  np_ot_example env party_id = do
    let params : VerseParams = record { base_ot_sizes = 128; ext_ot_sizes = 0 }
    let base_choices = read_block_from_dev_urandom env 0 ∷ []
    npot_sender ← lift (
        build_verse (base_ot_sender_factory c ec env.sender_source) naor_pinkas_sender_scheme
          params)
    npot_receiver ← lift (
        build_verse (base_ot_receiver_factory c ec env.receiver_source) naor_pinkas_receiver_scheme
          params)
    (if party_id == 0
        then (npot_sender.send npot_sender.state >>= λ r. lift (print_pairs 128 r.0))
        else (npot_receiver.receive npot_receiver.state base_choices >>= λ r.
            lift (print_chosen 128 r.0 base_choices)))
