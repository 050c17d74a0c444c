-- ===== src/Programs/Prints/Encoded.antt =====
-- What the two printing loops of kkrt_ot_example.cpp print.
use mathlib.Core.List.{flatten}
use petace_verse.Common.{
  ℕ, suc, ◌+◌, ◌*◌, ◌≤◌, ◌<◌, List, [], ◌∷◌, ◌++◌, Outcome, ok, ◌>>=◌, length, get_or, ◌≡◌, refl,
  sym, ◌∙◌, ap, subst, arith, load, load-get_or, build, build_entries, Returns, length-append,
  get_or-append_left,
}
use petace_verse.Common.Flatten.{length-flatten, get_or-flatten}
use petace_verse.Util.Memory.{Block, set_epi64x}
use petace_verse.Programs.{Output, low_half, high_half}
use petace_verse.Programs.Prints.{print_encoded, print_messages}

-- The line of the message that `encode` gives for transfer `i` at the value `j`.
abbrev pub EncodedLine : (ℕ → Block → Outcome Block) → ℕ → ℕ → List ℕ → Type 0
EncodedLine encode i j line =
    (b : Block) × (encode i (set_epi64x 0 j) ≡ ok b) × (line ≡ low_half b ∷ high_half b ∷ [])

module _ (encode : ℕ → Block → Outcome Block) where
  abbrev EncodedPart : ℕ → List (List ℕ) → Type 0
  EncodedPart i part =
      (length part ≡ 18) × ((j : ℕ) → j < 16 → EncodedLine encode i j (get_or part (suc j) []))

  encoded_part :
      (i : ℕ)
      → ((j : ℕ) → j < 16 → (b : Block) × (encode i (set_epi64x 0 j) ≡ ok b))
      → Returns (EncodedPart i) (
          build 16 0 (λ j. encode i (set_epi64x 0 j) >>= λ b. ok (low_half b ∷ high_half b ∷ []))
          >>= λ lines. ok ((i ∷ []) ∷ lines ++ [] ∷ []))
  encoded_part i returns =
      let lines =
        build_entries [] (λ j line. EncodedLine encode i j line)
          (λ j. encode i (set_epi64x 0 j) >>= λ b. ok (low_half b ∷ high_half b ∷ [])) 16
          λ j lt.
            let b = returns j lt in
            subst
              (λ m.
                Returns (EncodedLine encode i j) (m >>= λ b. ok (low_half b ∷ high_half b ∷ [])))
              (sym (b.1)) (b.0, b.1, refl) in
      subst (λ m. Returns (EncodedPart i) (m >>= λ lines. ok ((i ∷ []) ∷ lines ++ [] ∷ [])))
        (sym (lines.1))
        (
          omega (arith, length-append lines.0 ([] ∷ []), lines.2),
          λ j lt.
              subst (EncodedLine encode i j)
                (sym (get_or-append_left lines.0 ([] ∷ []) j [] (omega (arith, lines.2))))
                (lines.3 j lt),
        )

  pub print_encoded_lem :
      ((i j : ℕ) → i < 16 → j < 16 → (b : Block) × (encode i (set_epi64x 0 j) ≡ ok b))
      → (out : Output) × (print_encoded encode ≡ ok out)
        × (length out ≡ 16 * 18)
        × ((i j : ℕ) → i < 16 → j < 16 → EncodedLine encode i j (get_or out (i * 18 + suc j) []))
  unfolding print_encoded
  print_encoded_lem returns =
      let parts =
        build_entries [] EncodedPart _ 16 (λ i lt. encoded_part i (λ j hj. returns i j lt hj)) in
      let widths = λ (k : ℕ) (lt : k < length parts.0). (parts.3 k (omega (arith, parts.2))).0 in
      (
        flatten parts.0,
        rw (parts.1) refl,
        length-flatten 18 parts.0 widths ∙ ap (λ (n : ℕ). n * 18) parts.2,
        λ i j lt hj.
            subst (EncodedLine encode i j)
              (sym (
                get_or-flatten 18 parts.0 i (suc j) [] widths (omega (arith, parts.2))
                  (omega arith)))
              ((parts.3 i lt).1 j hj),
      )

module _ (messages choices : List Block) where
  abbrev MessagePart : ℕ → List (List ℕ) → Type 0
  MessagePart i part =
      let m = get_or messages i 0 in
      (length part ≡ 2)
      × (get_or part 1 [] ≡ low_half m ∷ high_half m ∷ low_half (get_or choices i 0) ∷ [])

  pub print_messages_lem :
      16 ≤ length messages
      → 16 ≤ length choices
      → (out : Output) × (print_messages messages choices ≡ ok out)
        × (length out ≡ 16 * 2)
        × ((i : ℕ)
            → i < 16
            → get_or out (i * 2 + 1) []
              ≡ low_half (get_or messages i 0)
                ∷ high_half (get_or messages i 0)
                ∷ low_half (get_or choices i 0)
                ∷ [])
  unfolding print_messages
  print_messages_lem hm hc =
      let parts =
        build_entries [] MessagePart
          (λ i. load messages i >>= λ m. load choices i >>= λ choice.
            ok ((i ∷ []) ∷ (low_half m ∷ high_half m ∷ low_half choice ∷ []) ∷ []))
          16
          (λ i lt.
            rw (load-get_or messages i 0 (omega arith), load-get_or choices i 0 (omega arith))
              (refl, refl)) in
      let widths = λ (k : ℕ) (lt : k < length parts.0). (parts.3 k (omega (arith, parts.2))).0 in
      (
        flatten parts.0,
        rw (parts.1) refl,
        length-flatten 2 parts.0 widths ∙ ap (λ (n : ℕ). n * 2) parts.2,
        λ i lt.
            get_or-flatten 2 parts.0 i 1 [] widths (omega (arith, parts.2)) (omega arith)
            ∙ (parts.3 i lt).1,
      )
