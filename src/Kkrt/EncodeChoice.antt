-- ===== src/Kkrt/EncodeChoice.antt =====
-- `encode` at the choice of a transfer, in terms of the rows of the two parties.
use petace_verse.Common.{
  ℕ, ◌*◌, ◌/◌, ◌≤◌, ◌<◌, bit_and, bit_xor, List, [], ok, length, get_or, load-get_or, ◌≡◌, ap, ap₂,
  ◌∙◌, arith,
}
use petace_verse.Util.Memory.{Block, set_epi64x}
use petace_verse.Crypto.{Crypto, hash_block}
use petace_verse.Kkrt.{KkrtNcoOtExtSender}
use petace_verse.Kkrt.Matrix.{chain}
use petace_verse.Kkrt.Encode.{encode}
use petace_verse.Kkrt.Masks.{unmask}
use petace_verse.Kkrt.Chains.{chain_ext, encoded_input_lem}

module _ (c : Crypto) where
  -- `encode` at the choice of a transfer reads off the receiver's first row.
  pub encode-eq :
      (s : KkrtNcoOtExtSender c) (threshhold ext i : ℕ) (x : Block) (row0 row1 : List (List Block))
      → s.base_ot_sizes ≡ threshhold * 128
      → threshhold ≤ length s.base_choices
      → length s.q_mat ≡ ext
      → i < ext
      → length (get_or s.q_mat i []) ≡ threshhold
      → ((j : ℕ)
          → j < threshhold
          → let a = get_or (get_or row0 i []) j 0 in
            let b = get_or (get_or row1 i []) j 0 in
            let choice = get_or s.base_choices j 0 in
            get_or (get_or s.q_mat i []) j 0
            ≡ bit_xor (bit_xor a (bit_and (bit_xor a b) choice)) (
                bit_and
                  (bit_xor (hash_block c (bit_xor x (set_epi64x 0 j))) (bit_xor (bit_xor a b) x))
                  choice))
      → encode c s i x ≡ chain c threshhold i (λ j. ok (get_or (get_or row0 i []) j 0))
  unfolding encode
  encode-eq s threshhold ext i x row0 row1 hb le e lt w q =
      let enc = encoded_input_lem c threshhold s.base_choices x le in
      let height : s.base_ot_sizes / 128 ≡ threshhold = omega arith in
      rw (height, enc.1)
        (chain_ext c threshhold i _ (λ j. ok (get_or (get_or row0 i []) j 0))
          λ j hj.
            rw
              (
                load-get_or enc.0 j 0 (omega (arith, enc.2)),
                load-get_or s.q_mat i [] (omega arith),
                load-get_or (get_or s.q_mat i []) j 0 (omega arith),
              )
              (ap ok (
                ap₂ bit_xor (enc.3 j hj) (q j hj)
                ∙ unmask (get_or (get_or row0 i []) j 0) (get_or (get_or row1 i []) j 0)
                    (get_or s.base_choices j 0) (hash_block c (bit_xor x (set_epi64x 0 j))) x)))
