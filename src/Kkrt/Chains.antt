-- ===== src/Kkrt/Chains.antt =====
-- The vectors of hashes: the chain over a row, the masked input of `encode`, and the sender's rows.
use petace_verse.Common.{
  ℕ, zero, suc, ◌+◌, ◌*◌, ◌≤◌, ◌<◌, bit_and, bit_xor, List, [], Outcome, ok, err, fault, ◌>>=◌,
  load, build, build_entries, for_range, for_range-Returns, Returns, Returns-value, length, get_or,
  load-get_or, ◌≡◌, refl, sym, ap, ◌∙◌, arith, subst,
}
use petace_verse.Util.Transpose.Load.{index-lt}
use petace_verse.Util.Memory.{Block, set_epi64x}
use petace_verse.Crypto.{Crypto, hash_block}
use petace_verse.Kkrt.Matrix.{load_2d, q_matrix, chain, encoded_input, receiver_messages}
use petace_verse.Kkrt.Squares.{IsRows}

bind_ext {ℓ} :
    {A B : Type ℓ} (m : Outcome A) (f g : A → Outcome B)
    → ((a : A) → f a ≡ g a)
    → (m >>= f) ≡ (m >>= g)
bind_ext (ok a) f g h = h a
bind_ext (err e) f g h = refl
bind_ext fault f g h = refl

-- Loops whose bodies agree on the range agree.
for_range_ext {ℓ} :
    {S : Type ℓ} (f g : ℕ → S → Outcome S) (n i : ℕ) (s : S)
    → ((k : ℕ) (t : S) → i ≤ k → k < i + n → f k t ≡ g k t)
    → for_range n i f s ≡ for_range n i g s
unfolding for_range
for_range_ext f g zero i s h = refl
for_range_ext f g (suc n) i s h =
    ap (λ (m : Outcome _). m >>= for_range n (i + 1) f) (h i s (omega arith) (omega arith))
    ∙ bind_ext (g i s) (for_range n (i + 1) f) (for_range n (i + 1) g)
        λ t. for_range_ext f g n (i + 1) t (λ k u p q. h k u (omega arith) (omega arith))

module _ (c : Crypto) where
  pub chain_ext :
      (threshhold i : ℕ) (f g : ℕ → Outcome Block)
      → ((j : ℕ) → j < threshhold → f j ≡ g j)
      → chain c threshhold i f ≡ chain c threshhold i g
  unfolding chain
  chain_ext threshhold i f g h = for_range_ext _ _ threshhold 0 (set_epi64x 0 0) λ j acc _ lt.
      ap
        (λ (m : Outcome Block).
          m >>= λ e. ok (hash_block c (bit_xor acc (bit_xor e (set_epi64x 0 i)))))
        (h j (omega arith))

  -- A chain over entries that are there has a value.
  pub chain-Returns :
      (threshhold i : ℕ) (f : ℕ → Outcome Block) (g : ℕ → Block)
      → ((j : ℕ) → j < threshhold → f j ≡ ok (g j))
      → (m : Block) × (chain c threshhold i f ≡ ok m)
  unfolding chain
  chain-Returns threshhold i f g h =
      let r =
        Returns-value (λ (_ : Block). Unit {0}) (chain c threshhold i f)
          (for_range-Returns (λ _ _. Unit {0}) _ threshhold 0 threshhold (set_epi64x 0 0)
            (omega arith) (λ j acc _ lt _. rw (h j lt) tt) tt) in
      (r.0, r.1)

  -- The receiver has one message for each choice: the chain over its first row.
  pub receiver_messages_lem :
      (n ext threshhold : ℕ) (matrix row0 : List (List Block))
      → IsRows matrix ext threshhold row0
      → n ≤ ext
      → (ms : List Block) × (receiver_messages c n threshhold row0 ≡ ok ms)
        × (length ms ≡ n)
        × ((i : ℕ)
            → i < n
            → chain c threshhold i (λ j. ok (get_or (get_or row0 i []) j 0)) ≡ ok (get_or ms i 0))
  unfolding receiver_messages
  receiver_messages_lem n ext threshhold matrix row0 h le =
      build_entries 0 (λ i m. chain c threshhold i (λ j. ok (get_or (get_or row0 i []) j 0)) ≡ ok m)
        (λ i. chain c threshhold i (load_2d row0 i)) n
        λ i lt.
          let entry = λ (j : ℕ). get_or (get_or row0 i []) j 0 in
          let same =
            chain_ext threshhold i (load_2d row0 i) (λ j. ok (entry j))
              λ j hj.
                rw (load-get_or row0 i [] (omega (arith, h.size)))
                  (load-get_or (get_or row0 i []) j 0 (omega (arith, h.width i (omega arith)))) in
          let value = chain-Returns threshhold i (λ j. ok (entry j)) entry (λ j hj. refl) in
          subst (Returns (λ (m : Block). chain c threshhold i (λ j. ok (entry j)) ≡ ok m))
            (sym (same ∙ value.1)) value.1

  pub encoded_input_lem :
      (threshhold : ℕ) (base_choices : List Block) (input : Block)
      → threshhold ≤ length base_choices
      → (enc : List Block) × (encoded_input c threshhold base_choices input ≡ ok enc)
        × (length enc ≡ threshhold)
        × ((j : ℕ)
            → j < threshhold
            → get_or enc j 0
              ≡ bit_and
                  (get_or base_choices j 0)
                  (bit_xor (hash_block c (bit_xor input (set_epi64x 0 j))) input))
  unfolding encoded_input
  encoded_input_lem threshhold base_choices input le =
      build_entries 0
        (λ j b.
          b
          ≡ bit_and (get_or base_choices j 0)
              (bit_xor (hash_block c (bit_xor input (set_epi64x 0 j))) input))
        _ threshhold λ j lt. rw (load-get_or base_choices j 0 (omega arith)) refl

  -- The rows that the sender keeps.
  pub q_matrix_lem :
      (ext threshhold : ℕ) (base_choices recv : List Block) (matrix rows : List (List Block))
      → IsRows matrix ext threshhold rows
      → threshhold ≤ length base_choices
      → length recv ≡ ext * threshhold
      → (q : List (List Block)) × (q_matrix c ext threshhold base_choices recv rows ≡ ok q)
        × (length q ≡ ext)
        × ((r : ℕ)
            → r < ext
            → (length (get_or q r []) ≡ threshhold)
              × ((j : ℕ)
                  → j < threshhold
                  → get_or (get_or q r []) j 0
                    ≡ bit_xor
                        (get_or (get_or rows r []) j 0)
                        (bit_and (get_or recv (r * threshhold + j) 0) (get_or base_choices j 0))))
  unfolding q_matrix
  q_matrix_lem ext threshhold base_choices recv matrix rows h le e =
      build_entries []
        (λ r row.
          (length row ≡ threshhold)
          × ((j : ℕ)
              → j < threshhold
              → get_or row j 0
                ≡ bit_xor (get_or (get_or rows r []) j 0)
                    (bit_and (get_or recv (r * threshhold + j) 0) (get_or base_choices j 0))))
        (λ r. build threshhold 0 (entry r)) ext
        λ r lt.
          let row =
            build_entries 0
              (λ j b.
                b
                ≡ bit_xor (get_or (get_or rows r []) j 0)
                    (bit_and (get_or recv (r * threshhold + j) 0) (get_or base_choices j 0)))
              (entry r) threshhold
              (λ j hj.
                rw
                  (
                    load-get_or rows r [] (omega (arith, h.size)),
                    load-get_or (get_or rows r []) j 0 (omega (arith, h.width r lt)),
                    load-get_or recv (r * threshhold + j) 0
                        (rw e (index-lt r j ext threshhold lt hj)),
                    load-get_or base_choices j 0 (omega arith),
                  )
                  refl) in
          rw row.1 (row.2, row.3)
    where
      entry : ℕ → ℕ → Outcome Block
      entry r j = load_2d rows r j >>= λ q. load recv (r * threshhold + j) >>= λ u.
          load base_choices j >>= λ s. ok (bit_xor q (bit_and u s))
