-- ===== src/Kkrt/Setup.antt =====
-- From the base transfers to paired generators, and what `encode` does past the last session.
use mathlib.Core.List.{append-nil}
use petace_verse.Common.{
  ℕ, ◌+◌, ◌/◌, ◌%◌, ◌≤◌, ◌<◌, bit_xor, List, length, get_or, All, ◌≡◌, refl, sym, ◌∙◌, arith,
  length-map, ok, fault, ◌>>=◌, load, load_fault, load-get_or, for_range, suc, zero,
}
use petace_verse.Util.Memory.{Block, IsBlock}
use petace_verse.Crypto.{Crypto, seeded}
use petace_verse.Pairing.{Paired-map, chosen}
use petace_verse.Kkrt.{
  KkrtNcoOtExtSender, kkrt_sender, kkrt_receiver, sender_set_base_ots, receiver_set_base_ots,
}
use petace_verse.Kkrt.Matrix.{load_2d, chain}
use petace_verse.Kkrt.Encode.{encode}
use petace_verse.Kkrt.Chains.{encoded_input_lem}
use petace_verse.Kkrt.Transfer.{EncodeSynced}

module _ (c : Crypto) where
  -- Fresh objects that take the two sides of the base transfers, any multiple of 128 of them, in
  -- which the sender's received messages are the receiver's sent messages at the base choices, are
  -- set up for a session.
  pub set_base_ots-EncodeSynced :
      (base : ℕ) (choices recv : List Block) (sent : List (Block × Block))
      → base % 128 ≡ 0
      → base / 128 ≤ length choices
      → All IsBlock choices
      → length recv ≡ base
      → length sent ≡ base
      → ((k : ℕ) → k < base → get_or recv k 0 ≡ chosen choices sent k)
      → EncodeSynced c
          (sender_set_base_ots c (kkrt_sender c base) choices recv)
          (receiver_set_base_ots c (kkrt_receiver c base) sent)
  unfolding sender_set_base_ots receiver_set_base_ots kkrt_sender kkrt_receiver
  set_base_ots-EncodeSynced base choices recv sent hw hc hb hr hs h = record {
    same_base = refl;
    whole_blocks = hw;
    has_choices = rw append-nil hc;
    choices_blocks = rw append-nil hb;
    enough = omega (arith, length-map recv (seeded c));
    paired = rw append-nil (
        Paired-map c choices 0 recv sent (hr ∙ sym hs)
          (λ k lt. let z : 0 + k ≡ k = omega arith in rw z (h k (omega arith))));
  }

  -- With at least 128 base transfers and their choices set, `encode` of a transfer past the last
  -- session reads past `q_mat`.
  pub encode_fault :
      (s : KkrtNcoOtExtSender c) (i : ℕ) (x : Block)
      → 128 ≤ s.base_ot_sizes
      → s.base_ot_sizes / 128 ≤ length s.base_choices
      → length s.q_mat ≤ i
      → encode c s i x ≡ fault
  unfolding encode chain for_range
  encode_fault s i x hb hc hi =
      let threshhold : ℕ = s.base_ot_sizes / 128 in
      let enc = encoded_input_lem c threshhold s.base_choices x hc in
      rw (enc.1) (first threshhold enc.0 (omega arith) (omega (arith, enc.2)))
    where
      first :
          (threshhold : ℕ) (enc : List Block)
          → 0 < threshhold
          → 0 < length enc
          → chain c threshhold i
              (λ j. load enc j >>= λ e. load_2d s.q_mat i j >>= λ q. ok (bit_xor e q))
            ≡ fault
      first zero enc p q = absurd (omega arith)
      first (suc n) enc p q = rw (load-get_or enc 0 0 q, load_fault s.q_mat i hi) refl
