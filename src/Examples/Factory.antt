-- ===== src/Examples/Factory.antt =====
-- Witnesses of the theorems on the factory.
use petace_verse.Common.{ℕ, ◌+◌, ◌==◌, if◌then◌else◌, ok, err, not_registered, ◌≡◌}
use petace_verse.Factory.{
  iknp_sender_scheme, kkrt_sender_scheme, VerseParams, VerseCreator, new_factory, register_verse,
  build_verse,
}
use petace_verse.Factory.Registry.{or_else, build_verse-register_verse}
use petace_verse.Factory.Registrations.{
  base_ot_sender_factory, base_ot_receiver_factory, ext_ot_sender_factory, ext_ot_receiver_factory,
  nco_ext_ot_sender_factory, nco_ext_ot_receiver_factory, factories_build,
}
use petace_verse.Interfaces.Creators.{create_iknp_ext_sender}
use petace_verse.Examples.Toy.{toy}
use petace_verse.Examples.NaorPinkas.{pair_group}

abbrev sizes : VerseParams
sizes = record { base_ot_sizes = 128; ext_ot_sizes = 1024 }

abbrev total : VerseCreator ℕ
total params = params.base_ot_sizes + params.ext_ot_sizes

abbrev base_only : VerseCreator ℕ
base_only params = params.base_ot_sizes

build_verse-register_verse_example :
    build_verse (register_verse new_factory iknp_sender_scheme total) kkrt_sender_scheme sizes
    ≡ or_else
        (build_verse new_factory kkrt_sender_scheme sizes)
        (if 2 == 4 then ok 1152 else err not_registered)
build_verse-register_verse_example =
    build_verse-register_verse new_factory iknp_sender_scheme kkrt_sender_scheme total sizes

factories_build_example :
    (build_verse (base_ot_sender_factory toy pair_group 5) iknp_sender_scheme sizes
      ≡ err not_registered)
    × (build_verse (base_ot_receiver_factory toy pair_group 5) iknp_sender_scheme sizes
        ≡ err not_registered)
    × (build_verse (ext_ot_sender_factory toy) iknp_sender_scheme sizes
        ≡ ok (create_iknp_ext_sender toy sizes))
    × (build_verse (ext_ot_receiver_factory toy) iknp_sender_scheme sizes ≡ err not_registered)
    × (build_verse (nco_ext_ot_sender_factory toy) iknp_sender_scheme sizes ≡ err not_registered)
    × (build_verse (nco_ext_ot_receiver_factory toy) iknp_sender_scheme sizes ≡ err not_registered)
factories_build_example = factories_build toy pair_group 5 iknp_sender_scheme sizes
