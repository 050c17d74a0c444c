-- ===== src/Kkrt/Sizes.antt =====
-- Sizes that the checks let pass: no base transfers, and numbers of transfers near 2^64.
use petace_verse.Common.{
  fun_ext, ne→==, for_range, build, ℕ, suc, ◌-◌, ◌*◌, ◌%◌, ◌^◌, ◌<◌, List, [], ◌∷◌, ok, ◌≡◌, refl,
  sym, ap, ◌∙◌, arith, length, get_or, ◌==◌, eq→==, true, fault, subst, All,
}
use petace_verse.Util.Memory.{Block, IsBlock, set_epi64x}
use petace_verse.Crypto.{Crypto, IsCrypto, generate_row}
use petace_verse.Util.Bytes.{blocks_of_bytes}
use petace_verse.Net.Message.{recv_block-eq}
use petace_verse.Net.{crash, recv_data}
use petace_verse.Kkrt.{KkrtNcoOtExtSender, KkrtNcoOtExtReceiver, round_up, send, extend}
use petace_verse.Kkrt.Matrix.{generate_rows, chain, encoded_input}
use petace_verse.Kkrt.Encode.{encode}
use petace_verse.Kkrt.Transfer.{Encoded, EncodeSynced, IsSized, session_encodes, round_up_part}

module _ (c : Crypto) where
  -- Without base transfers every encoding is zero.
  zero_base :
      (s : KkrtNcoOtExtSender c) (i : ℕ) (x : Block) → s.base_ot_sizes ≡ 0 → encode c s i x ≡ ok 0
  unfolding encode encoded_input chain set_epi64x build for_range
  zero_base s i x h = rw h refl

  -- Objects that are set up without base transfers are refused by no check: a session for any
  -- choices that are blocks, at least one and such that 64 bits hold the sizes, ends with a result
  -- on both sides, and the messages of the receiver and all encodings of the sender, for every
  -- transfer and value, are zero.
  pub zero_base_encodes :
      (s : KkrtNcoOtExtSender c) (r : KkrtNcoOtExtReceiver c) (choices : List Block)
      → IsCrypto c
      → EncodeSynced c s r
      → s.base_ot_sizes ≡ 0
      → IsSized 0 (length choices)
      → All IsBlock choices
      → (t : Encoded c s r choices) × ((i : ℕ) (x : Block) → encode c t.sender i x ≡ ok 0)
        × ((i : ℕ) → i < length choices → get_or t.messages i 0 ≡ 0)
  zero_base_encodes s r choices w sync h sized blocks =
      let t =
        session_encodes c s r choices w sync
          (subst (λ (b : ℕ). IsSized b (length choices)) (sym h) sized) blocks in
      let zeros = λ (i : ℕ) (x : Block). zero_base t.sender i x (t.same_sizes ∙ h) in
      (
        t,
        zeros,
        λ i lt.
            let same : ok (get_or t.messages i 0) ≡ ok 0 =
              sym (t.encodes i lt) ∙ zeros i (get_or choices i 0) in
            cc,
      )

  no_row : (n : ℕ) (prngs : List c.Prng) → generate_rows c 0 (suc n) prngs ≡ fault
  unfolding generate_rows generate_row
  no_row n [] = refl
  no_row n (p ∷ prngs) = refl

  extend_nothing :
      (s : KkrtNcoOtExtSender c) (recv : List Block)
      → 0 < s.base_ot_sizes
      → extend c s 0 recv ≡ crash
  unfolding extend
  extend_nothing s recv pos =
      let none : generate_rows c 0 s.base_ot_sizes s.prng ≡ fault =
        let more : s.base_ot_sizes ≡ suc (s.base_ot_sizes - 1) = omega arith in
        ap (λ (n : ℕ). generate_rows c 0 n s.prng) more ∙ no_row (s.base_ot_sizes - 1) s.prng in
      rw none refl

  -- When a sender for whole blocks of base transfers, at least one, is asked for a number of
  -- transfers that is less than 128 below 2^64, the number rounded up passes 64 bits and is zero: no
  -- check refuses it, and `send` waits for no byte and then takes element 0 of an empty row.
  pub send_wraps :
      (s : KkrtNcoOtExtSender c) (n : ℕ)
      → s.base_ot_sizes % 128 ≡ 0
      → 0 < s.base_ot_sizes
      → 2 ^ 64 - 128 < n
      → n < 2 ^ 64
      → send c s n ≡ recv_data 0 (λ bytes. crash)
  unfolding send
  send_wraps s n whole pos low high =
      let none : round_up n ≡ 0 =
        round_up_part n (ne→== (n % 128) 0 (λ e. absurd (omega arith))) ∙ omega arith in
      let whole' : (s.base_ot_sizes % 128 == 0) ≡ true = eq→== (s.base_ot_sizes % 128) 0 whole in
      let empty : s.base_ot_sizes * 0 ≡ 0 = omega arith in
      let zero_bytes : 0 * 16 < 2 ^ 64 = omega arith in
      rw (whole', none, empty, recv_block-eq 0 zero_bytes)
        (ap (recv_data 0) (fun_ext λ bytes. extend_nothing s (blocks_of_bytes 0 bytes) pos))
