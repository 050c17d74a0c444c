-- ===== src/Factory/Registry.antt =====
-- What a factory builds after registrations.
use petace_verse.Common.{
  List, [], ◌∷◌, ◌==◌, if◌then◌else◌, Outcome, ok, err, fault, not_registered, Option, some, none,
  ◌≡◌, ◌⊎◌, refl, sym, ap, ◌∙◌, arith, Bool-cases, inl, inr,
}
use petace_verse.Factory.{
  OtScheme, scheme_value, VerseParams, VerseCreator, VerseFactory, find_creator, insert_creator,
  register_verse, build_verse, build_found, insert_unless,
}

-- A result, or else what stands in for an exception.
abbrev pub or_else {ℓ} : {T : Type ℓ} → Outcome T → Outcome T → Outcome T
or_else (ok v) other = ok v
or_else (err e) other = other
or_else fault other = fault

option_cases {ℓ} : {A : Type ℓ} (o : Option A) → (o ≡ none) ⊎ ((a : A) × (o ≡ some a))
option_cases none = inl refl
option_cases (some a) = inr (a, refl)

module _ {ℓ} {T : Type ℓ} where
  find_same :
      (s t : OtScheme) (entries : List (OtScheme × VerseCreator T))
      → scheme_value s ≡ scheme_value t
      → find_creator s entries ≡ find_creator t entries
  unfolding find_creator
  find_same s t [] e = refl
  find_same s t ((key, creator) ∷ rest) e = rw (e, find_same s t rest e) refl

  build_found-or_else :
      (found : Option (VerseCreator T)) (params : VerseParams)
      → build_found found params ≡ or_else (build_found found params) (err not_registered)
  unfolding build_found
  build_found-or_else none params = refl
  build_found-or_else (some creator) params = refl

  -- After a registration a scheme that was registered before is built as before, the scheme of the
  -- registration by the new creator, and every other scheme is refused.
  pub build_verse-register_verse :
      (factory : VerseFactory T) (s t : OtScheme) (creator : VerseCreator T) (params : VerseParams)
      → build_verse (register_verse factory s creator) t params
        ≡ or_else
            (build_verse factory t params)
            (if scheme_value s == scheme_value t then ok (creator params) else err not_registered)
  unfolding build_verse register_verse insert_creator insert_unless find_creator build_found
  build_verse-register_verse factory s t creator params =
      let entries = factory.creator_map in
      elim (Bool-cases (scheme_value s == scheme_value t)) [
        | inl same ↦
            let e = find_same s t entries (ground arith) in
            elim (option_cases (find_creator s entries)) [
              | inl fresh ↦
                  let gone : find_creator t entries ≡ none = sym e ∙ fresh in
                  rw (fresh, same, gone) refl
              | inr (old, known) ↦
                  let there : find_creator t entries ≡ some old = sym e ∙ known in
                  rw (known, same, there) refl
            ]
        | inr other ↦ elim (option_cases (find_creator s entries)) [
          | inl fresh ↦ rw (fresh, other) (build_found-or_else (find_creator t entries) params)
          | inr (old, known) ↦
              rw (known, other) (build_found-or_else (find_creator t entries) params)
        ]
      ]

  or_else-or_else : (x : Outcome T) (v w : T) → or_else (or_else x (ok v)) (ok w) ≡ or_else x (ok v)
  or_else-or_else (ok u) v w = refl
  or_else-or_else (err e) v w = refl
  or_else-or_else fault v w = refl

  -- A second registration of a scheme changes nothing, whatever creator it names.
  pub register_verse_again :
      (factory : VerseFactory T) (s t : OtScheme) (creator other : VerseCreator T)
      (params : VerseParams)
      → build_verse (register_verse (register_verse factory s creator) s other) t params
        ≡ build_verse (register_verse factory s creator) t params
  unfolding build_verse
  register_verse_again factory s t creator other params =
      let once = register_verse factory s creator in
      let first = build_verse-register_verse factory s t creator params in
      build_verse-register_verse once s t other params
      ∙ elim (Bool-cases (scheme_value s == scheme_value t)) [
        | inl same ↦ rw same (
            ap (λ (x : Outcome T). or_else x (ok (other params))) (rw same at first)
            ∙ or_else-or_else (build_verse factory t params) (creator params) (other params)
            ∙ sym (rw same at first))
        | inr apart ↦ rw apart (sym (build_found-or_else (find_creator t once.creator_map) params))
      ]
