-- ===== src/NaorPinkas/Messages.antt =====
-- The points and messages of both parties, entry by entry.
use petace_verse.Common.{
  ℕ, zero, suc, ◌*◌, ◌<◌, ◌≤◌, List, [], ◌∷◌, ok, ◌==◌, if◌then◌else◌, load-get_or, build_entries,
  length, get_or, ◌≡◌, refl, sym, ap, ◌∙◌, arith, Bool-cases, inl, inr,
}
use petace_verse.Common.Bits.{xor-zero}
use petace_verse.Util.Memory.{Block, bit_at}
use petace_verse.Util.Memory.Stores.{bit_from_blocks_lem}
use petace_verse.Crypto.{Crypto}
use petace_verse.Curve.{Curve, IsCurve, shared_point}
use petace_verse.NaorPinkas.Points.{
  mark, sigma_points, hash_point, sender_messages, receiver_messages,
}

mark-zero : (bytes : List ℕ) → mark 0 bytes ≡ bytes
unfolding mark
mark-zero [] = refl
mark-zero (b ∷ bs) = ap (λ (t : ℕ). t ∷ bs) (xor-zero b)

module _ (ec : Curve) where
  -- The receiver's point for a choice bit.
  abbrev pub sigma_point : ℕ → ec.SecretKey → ec.Point → ec.Point
  sigma_point b k q =
      if b == 0 then ec.create_public_key k else ec.add (ec.invert (ec.create_public_key k)) q

  pub sigma_points_lem :
      (n : ℕ) (choices : List Block) (ks : List ec.SecretKey) (qs : List ec.Point)
      (dk : ec.SecretKey) (dq : ec.Point)
      → length ks ≡ n
      → length qs ≡ n
      → n ≤ 128 * length choices
      → (ps : List ec.Point) × (sigma_points ec n choices ks qs ≡ ok ps)
        × (length ps ≡ n)
        × ((i : ℕ)
            → i < n
            → get_or ps i dq ≡ sigma_point (bit_at choices i) (get_or ks i dk) (get_or qs i dq))
  unfolding sigma_points
  sigma_points_lem n choices ks qs dk dq hk hq hc =
      build_entries dq (λ i p. p ≡ sigma_point (bit_at choices i) (get_or ks i dk) (get_or qs i dq))
        _ n
        λ i lt.
          rw (load-get_or ks i dk (omega arith), bit_from_blocks_lem choices i (omega arith))
            (elim (Bool-cases (bit_at choices i == 0)) [
              | inl z ↦ rw z refl
              | inr z ↦ rw (z, load-get_or qs i dq (omega arith)) refl
            ])

module _ (c : Crypto) (ec : Curve) where
  -- The sender's two messages from its key, its point and the receiver's point.
  abbrev pub message_pair : ec.SecretKey → ec.Point → ec.Point → Block × Block
  message_pair gr q pk0 = (
    hash_point c ec (ec.point_to_bytes (ec.encrypt pk0 gr) 33),
    hash_point c ec
        (mark 1 (ec.point_to_bytes (ec.add (ec.encrypt q gr) (ec.invert (ec.encrypt pk0 gr))) 33)),
  )

  -- The receiver's message from its key, the sender's point and the choice bit.
  abbrev pub message_at : ℕ → ec.SecretKey → ec.Point → Block
  message_at b k gr = hash_point c ec (mark b (ec.point_to_bytes (ec.encrypt gr k) 33))

  pub sender_messages_lem :
      (n : ℕ) (qs pk0s : List ec.Point) (grs : List ec.SecretKey) (dk : ec.SecretKey)
      (dq : ec.Point)
      → length qs ≡ n
      → length grs ≡ n
      → length pk0s ≡ n
      → (ms : List (Block × Block)) × (sender_messages c ec n qs grs pk0s ≡ ok ms)
        × (length ms ≡ n)
        × ((i : ℕ)
            → i < n
            → get_or ms i (0, 0)
              ≡ message_pair (get_or grs i dk) (get_or qs i dq) (get_or pk0s i dq))
  unfolding sender_messages
  sender_messages_lem n qs pk0s grs dk dq hq hg hp =
      build_entries (0, 0)
        (λ i m. m ≡ message_pair (get_or grs i dk) (get_or qs i dq) (get_or pk0s i dq)) _ n
        λ i lt.
          rw
            (
              load-get_or pk0s i dq (omega arith),
              load-get_or grs i dk (omega arith),
              load-get_or qs i dq (omega arith),
            )
            refl

  pub receiver_messages_lem :
      (n : ℕ) (choices : List Block) (ks : List ec.SecretKey) (grs : List ec.Point)
      (dk : ec.SecretKey) (dq : ec.Point)
      → length ks ≡ n
      → length grs ≡ n
      → n ≤ 128 * length choices
      → (ms : List Block) × (receiver_messages c ec n choices ks grs ≡ ok ms)
        × (length ms ≡ n)
        × ((i : ℕ)
            → i < n
            → get_or ms i 0 ≡ message_at (bit_at choices i) (get_or ks i dk) (get_or grs i dq))
  unfolding receiver_messages
  receiver_messages_lem n choices ks grs dk dq hk hg hc =
      build_entries 0 (λ i m. m ≡ message_at (bit_at choices i) (get_or ks i dk) (get_or grs i dq))
        _ n
        λ i lt.
          rw
            (
              load-get_or grs i dq (omega arith),
              load-get_or ks i dk (omega arith),
              bit_from_blocks_lem choices i (omega arith),
            )
            refl

  -- Both parties come to the same bytes at the choice bit.
  pub agree_at :
      (IsEncodable : ec.Point → Type 0)
      → IsCurve ec IsEncodable
      → (b : ℕ) (k gr : ec.SecretKey) (q : ec.Point) → b < 2
      → let m = message_pair gr q (sigma_point ec b k q) in
        message_at b k (ec.create_public_key gr) ≡ (if b == 0 then m.0 else m.1)
  agree_at IsEncodable w zero k gr q h = ap (hash_point c ec) (
      mark-zero (ec.point_to_bytes (ec.encrypt (ec.create_public_key gr) k) 33)
      ∙ ap (λ (p : ec.Point). ec.point_to_bytes p 33) (w.encrypt_public gr k))
  agree_at IsEncodable w (suc zero) k gr q h =
      ap (λ (p : ec.Point). hash_point c ec (mark 1 (ec.point_to_bytes p 33)))
        (sym (shared_point ec IsEncodable w q k gr))
  agree_at IsEncodable w (suc (suc b)) k gr q h = absurd (omega arith)
