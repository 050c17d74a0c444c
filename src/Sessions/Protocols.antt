-- ===== src/Sessions/Protocols.antt =====
-- The three protocols as pairs of methods, and when two objects are ready for each other.
use petace_verse.Common.{
  subst, ℕ, zero, suc, ◌+◌, ◌*◌, ◌/◌, ◌≤◌, ◌<◌, List, ok, length, get_or, All, ◌≡◌, refl, sym, ◌∙◌,
  ap, arith,
}
use petace_verse.Util.Memory.{Block, IsBlock}
use petace_verse.Crypto.{Crypto, IsCrypto}
use petace_verse.Curve.{Curve, IsCurve}
use petace_verse.Pairing.{chosen}
use petace_verse.Net.Compose.{retimed}
use petace_verse.Sessions.{Session}
use petace_verse.NaorPinkas as NaorPinkas
use petace_verse.NaorPinkas.{NaorPinkasSender, NaorPinkasReceiver}
use petace_verse.NaorPinkas.Points.{create_keys, sigma_points}
use petace_verse.NaorPinkas.Bytes.{public_keys}
use petace_verse.NaorPinkas.Transfer.{base_session_transfers}
use petace_verse.Iknp as Iknp
use petace_verse.Iknp.{IknpOtExtSender, IknpOtExtReceiver}
use petace_verse.Iknp.Transfer.{Synced, session_transfers}
use petace_verse.Kkrt as Kkrt
use petace_verse.Kkrt.{KkrtNcoOtExtSender, KkrtNcoOtExtReceiver, round_up}
use petace_verse.Kkrt.Encode.{encode}
use petace_verse.Kkrt.Transfer.{IsSized, EncodeSynced, session_encodes, round_up_lem}
use petace_verse.Kkrt.Encodes.{encode_returns}

-- `n` messages on both sides, the receiver's at the choice bits.
abbrev pub Chose : ℕ → List Block → List (Block × Block) → List Block → Type 0
Chose n choices sent received =
    (length sent ≡ n)
    × (length received ≡ n)
    × ((i : ℕ) → i < n → get_or received i 0 ≡ chosen choices sent i)

-- The extensions are ready for any number of calls, or for none.
module _ (c : Crypto) where
  abbrev pub IknpReady : ℕ → ℕ → IknpOtExtSender c → IknpOtExtReceiver c → Type 0
  IknpReady n m s r = Synced c s r × (s.ext_ot_sizes ≡ n)

  abbrev pub KkrtReady : ℕ → ℕ → KkrtNcoOtExtSender c → KkrtNcoOtExtReceiver c → Type 0
  KkrtReady base m s r = EncodeSynced c s r × (s.base_ot_sizes ≡ base)

  -- A message for each choice, the one that `encode` gives at the choice; `encode` returns at every
  -- other value too.
  abbrev pub Encodes : List Block → KkrtNcoOtExtSender c → List Block → Type 0
  Encodes choices s messages =
      (length messages ≡ length choices)
      × ((i : ℕ)
          → i < length choices
          → (encode c s i (get_or choices i 0) ≡ ok (get_or messages i 0))
            × ((x : Block) → (b : Block) × (encode c s i x ≡ ok b)))

module _ (c : Crypto) (w : IsCrypto c) (choices : List Block) (blocks : All IsBlock choices) where
  pub iknp-Session :
      (n : ℕ)
      → n ≤ 128 * length choices
      → (m : ℕ) (s : IknpOtExtSender c) (r : IknpOtExtReceiver c) → IknpReady c n (suc m) s r
      → Session
          (Iknp.send c)
          (λ (t : IknpOtExtReceiver c). Iknp.receive c t choices)
          (IknpReady c n)
          (λ s' r'. Chose n choices)
          2
          0
          (n * 16)
          m
          s
          r
  iknp-Session n enough m s r ready =
      let t = session_transfers c s r choices w ready.0 (omega (arith, ready.1)) blocks in
      record {
        left_out = t.sent;
        right_out = t.received;
        left_after = t.sender;
        right_after = t.receiver;
        run = λ i j.
            retimed 2 2 i (i + 0) (j + s.ext_ot_sizes * 16) (j + n * 16) _ _ _ refl (omega arith)
              (omega (arith, ready.1)) (t.run i j);
        ready = (t.synced, t.same_sizes ∙ ready.1);
        post = (
          t.length_sent ∙ ready.1,
          t.length_received ∙ ready.1,
          λ i lt. t.picks i (omega (arith, ready.1)),
        );
      }

  pub kkrt-Session :
      (base m : ℕ) (s : KkrtNcoOtExtSender c) (r : KkrtNcoOtExtReceiver c)
      → IsSized base (length choices)
      → KkrtReady c base (suc m) s r
      → Session
          (λ (t : KkrtNcoOtExtSender c). Kkrt.send c t (length choices))
          (λ (t : KkrtNcoOtExtReceiver c). Kkrt.receive c t choices)
          (KkrtReady c base)
          (λ s' r' (x : Unit {0}). Encodes c choices s')
          2
          0
          (round_up (length choices) * (base / 128) * 16)
          m
          s
          r
  kkrt-Session base m s r sized ready =
      let t =
        session_encodes c s r choices w ready.0
          (subst (λ (b : ℕ). IsSized b (length choices)) (sym ready.1) sized) blocks in
      record {
        left_out = tt;
        right_out = t.messages;
        left_after = t.sender;
        right_after = t.receiver;
        run = λ i j.
            retimed 2 2 i (i + 0) (j + round_up (length choices) * (s.base_ot_sizes / 128) * 16)
              (j + round_up (length choices) * (base / 128) * 16) _ _ _ refl (omega arith)
              (ap (λ (b : ℕ). j + round_up (length choices) * (b / 128) * 16) ready.1) (t.run i j);
        ready = (t.synced, t.same_sizes ∙ ready.1);
        post = (
          t.length_messages,
          λ i lt. (
            t.encodes i lt,
            λ x.
                let at : i < round_up (length choices) =
                  omega (arith, (round_up_lem (length choices) sized.0).1) in
                encode_returns c t.sender i x t.synced.has_choices (omega (arith, t.q_height))
                  (t.q_width i at ∙ ap (λ (n : ℕ). n / 128) (sym t.same_sizes)),
          ),
        );
      }

module _ (ec : Curve) (choices : List Block) (IsEncodable : ec.Point → Type 0) where
  -- 33 bytes hold the receiver's points in each of the next calls, whose number is the first
  -- argument; the two sources are those of the sender and the receiver.
  abbrev pub Sendable : ℕ → ℕ → ec.Source → ec.Source → Type 0
  Sendable zero n sender_source receiver_source = Unit
  Sendable (suc m) n sender_source receiver_source =
      let keys = create_keys ec n receiver_source in
      ((sigma : List ec.Point)
        → sigma_points ec n choices keys.0 (public_keys ec n sender_source) ≡ ok sigma
        → All IsEncodable sigma)
      × Sendable m n (create_keys ec n (create_keys ec n sender_source).1).1 keys.1

  abbrev pub BaseReady : ℕ → ℕ → NaorPinkasSender ec → NaorPinkasReceiver ec → Type 0
  BaseReady n m s r = (s.base_ot_sizes ≡ n) × (r.base_ot_sizes ≡ n) × Sendable m n s.prng r.prng

  pub base-Session :
      (c : Crypto)
      → IsCurve ec IsEncodable
      → (n : ℕ) → n ≤ 128 * length choices
      → (m : ℕ) (s : NaorPinkasSender ec) (r : NaorPinkasReceiver ec) → BaseReady n (suc m) s r
      → Session
          (NaorPinkas.send c ec)
          (λ (t : NaorPinkasReceiver ec). NaorPinkas.receive c ec t choices)
          (BaseReady n)
          (λ s' r'. Chose n choices)
          4
          (2 * n * 33)
          (n * 33)
          m
          s
          r
  base-Session c w n enough m s r ready =
      let t =
        base_session_transfers c ec s r choices IsEncodable w (ready.1 ∙ sym ready.0)
          (omega (arith, ready.0)) (λ sigma e. ready.2.0 sigma (rw ready.0 at e)) in
      record {
        left_out = t.sent;
        right_out = t.received;
        left_after = t.sender;
        right_after = t.receiver;
        run = λ i j.
            retimed 4 4 (i + 2 * s.base_ot_sizes * 33) (i + 2 * n * 33) (j + s.base_ot_sizes * 33)
              (j + n * 33) _ _ _ refl (omega (arith, ready.0)) (omega (arith, ready.0)) (t.run i j);
        ready = (
          t.sender_size ∙ ready.0,
          t.receiver_size ∙ ready.0,
          rw (t.sender_source, t.receiver_source, ready.0) ready.2.1,
        );
        post = (
          t.length_sent ∙ ready.0,
          t.length_received ∙ ready.0,
          λ i lt. t.picks i (omega (arith, ready.0)),
        );
      }
