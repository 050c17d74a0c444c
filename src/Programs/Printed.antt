-- ===== src/Programs/Printed.antt =====
-- What the printing loops print, and how the printouts of the two parties agree.
use petace_verse.Common.{
  ℕ, ◌*◌, ◌≤◌, ◌<◌, List, [], ◌∷◌, ok, ◌==◌, if◌then◌else◌, length, get_or, ◌≡◌, refl, sym, ◌∙◌, ap,
  arith, load-get_or, build_entries, Bool-cases, inl, inr,
}
use petace_verse.Util.Memory.{Block, bit_at}
use petace_verse.Util.Memory.Stores.{bit_from_blocks_lem}
use petace_verse.Sessions.Protocols.{Chose}
use petace_verse.Programs.{Output, low_half, high_half, print_pairs, print_chosen}

abbrev pair_line : Block × Block → List ℕ
pair_line m = low_half m.0 ∷ high_half m.0 ∷ low_half m.1 ∷ high_half m.1 ∷ []

abbrev chosen_line : Block → ℕ → List ℕ
chosen_line m bit = low_half m ∷ high_half m ∷ bit ∷ []

-- What a receiver with a choice bit prints beside a sender's line.
abbrev pub picked : ℕ → List ℕ → List ℕ
picked bit (a ∷ b ∷ c ∷ d ∷ []) = if bit == 0 then a ∷ b ∷ bit ∷ [] else c ∷ d ∷ bit ∷ []
picked bit line = []

-- `n` lines on both sides, each of the receiver's with its choice bit and the sender's message at
-- it.
abbrev pub Agree : ℕ → List Block → Output → Output → Type 0
Agree n choices pairs chosens =
    (length pairs ≡ n)
    × (length chosens ≡ n)
    × ((i : ℕ) → i < n → get_or chosens i [] ≡ picked (bit_at choices i) (get_or pairs i []))

picked_line :
    (bit : ℕ) (m : Block × Block)
    → chosen_line (if bit == 0 then m.0 else m.1) bit ≡ picked bit (pair_line m)
picked_line bit m = elim (Bool-cases (bit == 0)) [ inl z ↦ rw z refl | inr z ↦ rw z refl ]

pub print_pairs_lem :
    (n : ℕ) (messages : List (Block × Block))
    → length messages ≡ n
    → (out : Output) × (print_pairs n messages ≡ ok out)
      × (length out ≡ n)
      × ((i : ℕ) → i < n → get_or out i [] ≡ pair_line (get_or messages i (0, 0)))
unfolding print_pairs
print_pairs_lem n messages e =
    build_entries [] (λ i line. line ≡ pair_line (get_or messages i (0, 0))) _ n
      (λ i lt. rw (load-get_or messages i (0, 0) (omega arith)) refl)

pub print_chosen_lem :
    (n : ℕ) (messages choices : List Block)
    → length messages ≡ n
    → n ≤ 128 * length choices
    → (out : Output) × (print_chosen n messages choices ≡ ok out)
      × (length out ≡ n)
      × ((i : ℕ) → i < n → get_or out i [] ≡ chosen_line (get_or messages i 0) (bit_at choices i))
unfolding print_chosen
print_chosen_lem n messages choices e enough =
    build_entries [] (λ i line. line ≡ chosen_line (get_or messages i 0) (bit_at choices i)) _ n
      (λ i lt.
        rw (load-get_or messages i 0 (omega arith), bit_from_blocks_lem choices i (omega arith))
          refl)

-- After transfers of `n` messages both parties print `n` lines, and the lines agree.
pub prints-Agree :
    (n : ℕ) (choices : List Block) (sent : List (Block × Block)) (received : List Block)
    → n ≤ 128 * length choices
    → Chose n choices sent received
    → (pairs chosens : Output) × (print_pairs n sent ≡ ok pairs)
      × (print_chosen n received choices ≡ ok chosens)
      × Agree n choices pairs chosens
prints-Agree n choices sent received enough chose =
    let pairs = print_pairs_lem n sent chose.0 in
    let chosens = print_chosen_lem n received choices chose.1 enough in
    (
      pairs.0,
      chosens.0,
      pairs.1,
      chosens.1,
      (
        pairs.2,
        chosens.2,
        λ i lt.
            chosens.3 i lt
            ∙ ap (λ (m : Block). chosen_line m (bit_at choices i)) (chose.2 i lt)
            ∙ picked_line (bit_at choices i) (get_or sent i (0, 0))
            ∙ ap (picked (bit_at choices i)) (sym (pairs.3 i lt)),
      ),
    )
