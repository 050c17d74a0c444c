-- ===== src/Factory/Registrations.antt =====
-- The six factories that verse_factory.h fills, one creator each.
use petace_verse.Common.{◌==◌, if◌then◌else◌, ok, err, not_registered, ◌≡◌}
use petace_verse.Crypto.{Crypto}
use petace_verse.Curve.{Curve}
use petace_verse.Interfaces.{
  BaseOtSender, BaseOtReceiver, OtExtSender, OtExtReceiver, NcoOtExtSender, NcoOtExtReceiver,
}
use petace_verse.Interfaces.Creators.{
  create_naor_pinkas_sender, create_naor_pinkas_receiver, create_iknp_ext_sender,
  create_iknp_ext_receiver, create_kkrt_ext_sender, create_kkrt_ext_receiver,
}
use petace_verse.Factory.{
  OtScheme, naor_pinkas_sender_scheme, naor_pinkas_receiver_scheme, iknp_sender_scheme,
  iknp_receiver_scheme, kkrt_sender_scheme, kkrt_receiver_scheme, scheme_value, VerseParams,
  VerseCreator, VerseFactory, new_factory, register_verse, verse_registrar, build_verse,
  find_creator, build_found,
}
use petace_verse.Factory.Registry.{build_verse-register_verse}

module _ (c : Crypto) (ec : Curve) (prng : ec.Source) where
  unfoldable pub base_ot_sender_factory : VerseFactory BaseOtSender
  base_ot_sender_factory =
      verse_registrar new_factory naor_pinkas_sender_scheme (create_naor_pinkas_sender c ec prng)

  unfoldable pub base_ot_receiver_factory : VerseFactory BaseOtReceiver
  base_ot_receiver_factory =
      verse_registrar new_factory naor_pinkas_receiver_scheme
        (create_naor_pinkas_receiver c ec prng)

module _ (c : Crypto) where
  unfoldable pub ext_ot_sender_factory : VerseFactory OtExtSender
  ext_ot_sender_factory = verse_registrar new_factory iknp_sender_scheme (create_iknp_ext_sender c)

  unfoldable pub ext_ot_receiver_factory : VerseFactory OtExtReceiver
  ext_ot_receiver_factory =
      verse_registrar new_factory iknp_receiver_scheme (create_iknp_ext_receiver c)

  unfoldable pub nco_ext_ot_sender_factory : VerseFactory NcoOtExtSender
  nco_ext_ot_sender_factory =
      verse_registrar new_factory kkrt_sender_scheme (create_kkrt_ext_sender c)

  unfoldable pub nco_ext_ot_receiver_factory : VerseFactory NcoOtExtReceiver
  nco_ext_ot_receiver_factory =
      verse_registrar new_factory kkrt_receiver_scheme (create_kkrt_ext_receiver c)

-- One registration in an empty factory.
only_registered {ℓ} :
    {T : Type ℓ} (s t : OtScheme) (creator : VerseCreator T) (params : VerseParams)
    → build_verse (register_verse new_factory s creator) t params
      ≡ (if scheme_value s == scheme_value t then ok (creator params) else err not_registered)
unfolding build_verse new_factory find_creator build_found
only_registered s t creator params = build_verse-register_verse new_factory s t creator params

-- Each of the six factories builds the object of its own scheme, by its creator from the parameters,
-- and refuses the five other schemes.
pub factories_build :
    (c : Crypto) (ec : Curve) (prng : ec.Source) (t : OtScheme) (params : VerseParams)
    → (build_verse (base_ot_sender_factory c ec prng) t params ≡ (
        if 0 == scheme_value t
        then ok (create_naor_pinkas_sender c ec prng params)
        else err not_registered))
      × (build_verse (base_ot_receiver_factory c ec prng) t params ≡ (
          if 1 == scheme_value t
          then ok (create_naor_pinkas_receiver c ec prng params)
          else err not_registered))
      × (build_verse (ext_ot_sender_factory c) t params ≡ (
          if 2 == scheme_value t then ok (create_iknp_ext_sender c params) else err not_registered))
      × (build_verse (ext_ot_receiver_factory c) t params ≡ (
          if 3 == scheme_value t
          then ok (create_iknp_ext_receiver c params)
          else err not_registered))
      × (build_verse (nco_ext_ot_sender_factory c) t params ≡ (
          if 4 == scheme_value t then ok (create_kkrt_ext_sender c params) else err not_registered))
      × (build_verse (nco_ext_ot_receiver_factory c) t params ≡ (
          if 5 == scheme_value t
          then ok (create_kkrt_ext_receiver c params)
          else err not_registered))
unfolding base_ot_sender_factory base_ot_receiver_factory ext_ot_sender_factory
    ext_ot_receiver_factory nco_ext_ot_sender_factory nco_ext_ot_receiver_factory
factories_build c ec prng t params = (
  only_registered naor_pinkas_sender_scheme t (create_naor_pinkas_sender c ec prng) params,
  only_registered naor_pinkas_receiver_scheme t (create_naor_pinkas_receiver c ec prng) params,
  only_registered iknp_sender_scheme t (create_iknp_ext_sender c) params,
  only_registered iknp_receiver_scheme t (create_iknp_ext_receiver c) params,
  only_registered kkrt_sender_scheme t (create_kkrt_ext_sender c) params,
  only_registered kkrt_receiver_scheme t (create_kkrt_ext_receiver c) params,
)
