-- ===== src/Iknp/Messages.antt =====
-- The messages of both parties, entry by entry.
use petace_verse.Common.{
  ℕ, ◌*◌, ◌<◌, bit_xor, List, [], ok, ◌==◌, if◌then◌else◌, build_entries, length, get_or,
  load-get_or, ◌≡◌, refl, sym, ap, ◌∙◌, Bool-cases, inl, inr,
}
use petace_verse.Common.Bits.{xor_cancel, xor_assoc, xor_comm}
use petace_verse.Util.Memory.{Block, set_epi64x}
use petace_verse.Crypto.{Crypto, hash_block}
use petace_verse.Iknp.Matrix.{sender_messages, receiver_messages}
use petace_verse.Iknp.Columns.{IsColumn, pad, cell-pad}

module _ (c : Crypto) where
  pub sender_messages_lem :
      (cols : ℕ) (matrix base_choices : List Block) (output : List (List Block))
      → length output ≡ cols
      → ((k : ℕ) → k < cols → IsColumn cols matrix k (get_or output k []))
      → 0 < length base_choices
      → (ms : List (Block × Block)) × (sender_messages c 128 (128 * cols) base_choices output
          ≡ ok ms)
        × (length ms ≡ 128 * cols)
        × ((i : ℕ)
            → i < 128 * cols
            → let q0 = bit_xor (pad output i) (set_epi64x 0 i) in
              get_or ms i (0, 0)
              ≡ (hash_block c q0, hash_block c (bit_xor q0 (get_or base_choices 0 0))))
  unfolding sender_messages
  sender_messages_lem cols matrix base_choices output e h hb =
      build_entries (0, 0)
        (λ i m.
          let q0 = bit_xor (pad output i) (set_epi64x 0 i) in
          m ≡ (hash_block c q0, hash_block c (bit_xor q0 (get_or base_choices 0 0))))
        _ (128 * cols)
        λ i lt. rw (cell-pad cols matrix output i e h lt, load-get_or base_choices 0 0 hb) refl

  pub receiver_messages_lem :
      (cols : ℕ) (matrix : List Block) (output : List (List Block))
      → length output ≡ cols
      → ((k : ℕ) → k < cols → IsColumn cols matrix k (get_or output k []))
      → (mr : List Block) × (receiver_messages c 128 (128 * cols) output ≡ ok mr)
        × (length mr ≡ 128 * cols)
        × ((i : ℕ)
            → i < 128 * cols
            → get_or mr i 0 ≡ hash_block c (bit_xor (pad output i) (set_epi64x 0 i)))
  unfolding receiver_messages
  receiver_messages_lem cols matrix output e h =
      build_entries 0 (λ i m. m ≡ hash_block c (bit_xor (pad output i) (set_epi64x 0 i))) _
        (128 * cols) λ i lt. rw (cell-pad cols matrix output i e h lt) refl

  pub xor_swap : (t i s : ℕ) → bit_xor (bit_xor (bit_xor t s) i) s ≡ bit_xor t i
  xor_swap t i s =
      ap (λ (u : ℕ). bit_xor u s)
        (xor_assoc t s i ∙ ap (bit_xor t) (xor_comm s i) ∙ sym (xor_assoc t i s))
      ∙ xor_cancel (bit_xor t i) s

  -- The receiver's hash is one of the sender's two.
  pub pick :
      (b qe qt front i : ℕ) (m : Block × Block)
      → qe ≡ (if b == 0 then qt else bit_xor qt front)
      → m ≡ (
        hash_block c (bit_xor qe (set_epi64x 0 i)),
        hash_block c (bit_xor (bit_xor qe (set_epi64x 0 i)) front),
      )
      → hash_block c (bit_xor qt (set_epi64x 0 i)) ≡ (if b == 0 then m.0 else m.1)
  pick b qe qt front i m e h = elim (Bool-cases (b == 0)) [
    | inl z ↦
        let q : qe ≡ qt = rw z at e in
        rw z (
          ap (λ (u : ℕ). hash_block c (bit_xor u (set_epi64x 0 i))) (sym q)
          ∙ sym (ap (λ (p : Block × Block). p.0) h))
    | inr z ↦
        let q : qe ≡ bit_xor qt front = rw z at e in
        rw z (
          ap (hash_block c) (sym (xor_swap qt (set_epi64x 0 i) front))
          ∙ ap (λ (u : ℕ). hash_block c (bit_xor (bit_xor u (set_epi64x 0 i)) front)) (sym q)
          ∙ sym (ap (λ (p : Block × Block). p.1) h))
  ]
