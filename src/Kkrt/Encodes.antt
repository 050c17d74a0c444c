-- ===== src/Kkrt/Encodes.antt =====
-- `encode` at any value, also where the receiver has not chosen it.
use petace_verse.Common.{
  ℕ, ◌/◌, ◌≤◌, ◌<◌, bit_xor, [], ok, length, get_or, ◌≡◌, refl, arith, load, load-get_or, ◌>>=◌,
}
use petace_verse.Util.Memory.{Block}
use petace_verse.Crypto.{Crypto}
use petace_verse.Kkrt.{KkrtNcoOtExtSender}
use petace_verse.Kkrt.Matrix.{load_2d}
use petace_verse.Kkrt.Encode.{encode}
use petace_verse.Kkrt.Chains.{chain-Returns, encoded_input_lem}

module _ (c : Crypto) where
  -- `encode` returns a message for every row of `q_mat` and every value, when the rows have a block
  -- for each 128 base transfers and as many base choices are set.
  pub encode_returns :
      (s : KkrtNcoOtExtSender c) (i : ℕ) (x : Block)
      → s.base_ot_sizes / 128 ≤ length s.base_choices
      → i < length s.q_mat
      → length (get_or s.q_mat i []) ≡ s.base_ot_sizes / 128
      → (b : Block) × (encode c s i x ≡ ok b)
  unfolding encode
  encode_returns s i x le lt width =
      let threshhold : ℕ = s.base_ot_sizes / 128 in
      let enc = encoded_input_lem c threshhold s.base_choices x le in
      let v =
        chain-Returns c threshhold i
          (λ j. load enc.0 j >>= λ e. load_2d s.q_mat i j >>= λ q. ok (bit_xor e q))
          (λ j. bit_xor (get_or enc.0 j 0) (get_or (get_or s.q_mat i []) j 0))
          λ j hj.
            rw
              (
                load-get_or enc.0 j 0 (omega (arith, enc.2)),
                load-get_or s.q_mat i [] lt,
                load-get_or (get_or s.q_mat i []) j 0 (omega (arith, width)),
              )
              refl in
      (v.0, rw (enc.1) v.1)
