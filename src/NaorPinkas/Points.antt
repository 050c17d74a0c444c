-- ===== src/NaorPinkas/Points.antt =====
-- The loops of naor_pinkas_ot.cpp between the calls of the network.
use petace_verse.Common.{
  ℕ, zero, suc, bit_xor, List, [], ◌∷◌, ◌++◌, take, drop, Outcome, ok, ◌>>=◌, ◌==◌, if◌then◌else◌,
  load, build,
}
use petace_verse.Util.Memory.{Block, bit_from_blocks}
use petace_verse.Util.Bytes.{of_bytes}
use petace_verse.Crypto.{Crypto}
use petace_verse.Curve.{Curve}

-- `kEccPointLen`
abbrev pub ecc_point_len : ℕ
ecc_point_len = 33

-- `msg[0] ^= mask` on the bytes of a point
unfoldable pub mark : ℕ → List ℕ → List ℕ
mark mask [] = []
mark mask (b ∷ bs) = bit_xor b mask ∷ bs

module _ (ec : Curve) where
  -- `n` secret keys, and the source after them.
  unfoldable pub create_keys : ℕ → ec.Source → List ec.SecretKey × ec.Source
  create_keys zero prng = ([], prng)
  create_keys (suc n) prng =
      let key = ec.create_secret_key prng in
      let rest = create_keys n key.1 in (key.0 ∷ rest.0, rest.1)

  -- Points one behind the other, 33 bytes each.
  unfoldable pub bytes_of_points : List ec.Point → List ℕ
  bytes_of_points [] = []
  bytes_of_points (p ∷ ps) = ec.point_to_bytes p ecc_point_len ++ bytes_of_points ps

  unfoldable pub points_of_bytes : ℕ → List ℕ → List ec.Point
  points_of_bytes zero bytes = []
  points_of_bytes (suc n) bytes =
      ec.point_from_bytes (take ecc_point_len bytes) ecc_point_len
      ∷ points_of_bytes n (drop ecc_point_len bytes)

  -- The receiver's points: its public keys, turned at the set choice bits.
  unfoldable pub sigma_points :
      ℕ → List Block → List ec.SecretKey → List ec.Point → Outcome (List ec.Point)
  sigma_points n choices k_sigma_sk c_pk = build n 0 λ i. do
    k ← load k_sigma_sk i
    bit ← bit_from_blocks choices i
    (if bit == 0
        then ok (ec.create_public_key k)
        else (load c_pk i >>= λ q. ok (ec.add (ec.invert (ec.create_public_key k)) q)))

module _ (c : Crypto) (ec : Curve) where
  -- The hash of the bytes of a point into one block.
  unfoldable pub hash_point : List ℕ → Block
  hash_point bytes = of_bytes (c.compute bytes 16)

  -- The sender's messages, from its keys, its first points and the receiver's points.
  unfoldable pub sender_messages :
      ℕ → List ec.Point → List ec.SecretKey → List ec.Point → Outcome (List (Block × Block))
  sender_messages n c_pk gr_sk pk0_pk = build n 0 λ i. do
    pk0 ← load pk0_pk i
    gr ← load gr_sk i
    q ← load c_pk i
    let pk0_r = ec.encrypt pk0 gr
    let c_r = ec.encrypt q gr
    let pk1_r = ec.add c_r (ec.invert pk0_r)
    ok (
      hash_point (ec.point_to_bytes pk0_r ecc_point_len),
      hash_point (mark 1 (ec.point_to_bytes pk1_r ecc_point_len)),
    )

  -- The receiver's messages, from its keys and the sender's second points.
  unfoldable pub receiver_messages :
      ℕ → List Block → List ec.SecretKey → List ec.Point → Outcome (List Block)
  receiver_messages n choices k_sigma_sk gr_pk = build n 0 λ i. do
    gr ← load gr_pk i
    k ← load k_sigma_sk i
    bit ← bit_from_blocks choices i
    ok (hash_point (mark bit (ec.point_to_bytes (ec.encrypt gr k) ecc_point_len)))
