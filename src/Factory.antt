-- ===== src/Factory.antt =====
-- src/verse/verse_factory.h: creators registered by scheme, and objects built from them.
-- One factory stands for one instance of the template; the network handle in the parameters is not
-- used by any creator and left out.
pub mod Registry
pub mod Registrations
use petace_verse.Common.{
  ℕ, List, [], ◌∷◌, ◌==◌, if◌then◌else◌, Outcome, ok, err, not_registered, Option, some, none,
}

pub data OtScheme : Type 0 where
  naor_pinkas_sender_scheme : OtScheme
  naor_pinkas_receiver_scheme : OtScheme
  iknp_sender_scheme : OtScheme
  iknp_receiver_scheme : OtScheme
  kkrt_sender_scheme : OtScheme
  kkrt_receiver_scheme : OtScheme

-- The underlying number of the enumeration.
abbrev pub scheme_value : OtScheme → ℕ
scheme_value naor_pinkas_sender_scheme = 0
scheme_value naor_pinkas_receiver_scheme = 1
scheme_value iknp_sender_scheme = 2
scheme_value iknp_receiver_scheme = 3
scheme_value kkrt_sender_scheme = 4
scheme_value kkrt_receiver_scheme = 5

pub record VerseParams : Type 0 where
  pub base_ot_sizes : ℕ
  pub ext_ot_sizes : ℕ

module _ {ℓ} (T : Type ℓ) where
  abbrev pub VerseCreator : Type ℓ
  VerseCreator = VerseParams → T

  pub record VerseFactory : Type ℓ where
    pub creator_map : List (OtScheme × VerseCreator)

module _ {ℓ} {T : Type ℓ} where
  -- A factory as its constructor leaves it.
  unfoldable pub new_factory : VerseFactory T
  new_factory = record { creator_map = [] }

  -- `std::map::find`
  unfoldable pub find_creator :
      OtScheme → List (OtScheme × VerseCreator T) → Option (VerseCreator T)
  find_creator scheme [] = none
  find_creator scheme ((key, creator) ∷ rest) =
      let found = find_creator scheme rest in
      if scheme_value key == scheme_value scheme then some creator else found

  -- `std::map::insert`: a key that is there keeps its value.
  insert_unless :
      Option (VerseCreator T)
      → OtScheme
      → VerseCreator T
      → List (OtScheme × VerseCreator T)
      → List (OtScheme × VerseCreator T)
  insert_unless (some old) scheme creator entries = entries
  insert_unless none scheme creator entries = (scheme, creator) ∷ entries

  unfoldable pub insert_creator :
      OtScheme
      → VerseCreator T
      → List (OtScheme × VerseCreator T)
      → List (OtScheme × VerseCreator T)
  unfolding insert_unless
  insert_creator scheme creator entries =
      insert_unless (find_creator scheme entries) scheme creator entries

  unfoldable pub register_verse : VerseFactory T → OtScheme → VerseCreator T → VerseFactory T
  register_verse factory scheme creator = record {
    creator_map = insert_creator scheme creator factory.creator_map;
  }

  -- The constructor of `VerseRegistrar`.
  abbrev pub verse_registrar : VerseFactory T → OtScheme → VerseCreator T → VerseFactory T
  verse_registrar factory scheme creator = register_verse factory scheme creator

  build_found : Option (VerseCreator T) → VerseParams → Outcome T
  build_found none params = err not_registered
  build_found (some creator) params = ok (creator params)

  unfoldable pub build_verse : VerseFactory T → OtScheme → VerseParams → Outcome T
  unfolding build_found
  build_verse factory scheme params = build_found (find_creator scheme factory.creator_map) params
