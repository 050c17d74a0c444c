-- ===== src/NaorPinkas/Outputs.antt =====
-- The messages of both parties of the base transfers, whatever the other party sends.
use petace_verse.Common.{ℕ, ◌*◌, List, drop, map, load, arith}
use petace_verse.Common.Holds.{Holds, Holds-then, build-Holds}
use petace_verse.Util.Memory.{Block, IsBlock, bit_from_blocks}
use petace_verse.Util.Bytes.{of_bytes-IsBlock}
use petace_verse.Crypto.{Crypto, IsCrypto}
use petace_verse.Curve.{Curve}
use petace_verse.Net.{lift}
use petace_verse.Net.Gives.{Gives, Gives-then, lift-Gives}
use petace_verse.NaorPinkas.{NaorPinkasSender, NaorPinkasReceiver, send, receive}
use petace_verse.NaorPinkas.Points.{
  create_keys, hash_point, points_of_bytes, sigma_points, sender_messages, receiver_messages,
}
use petace_verse.Outputs.{IsPairs, IsMessages}

module _ (c : Crypto) (ec : Curve) (w : IsCrypto c) where
  hash_point-IsBlock : (bytes : List ℕ) → IsBlock (hash_point c ec bytes)
  unfolding hash_point
  hash_point-IsBlock bytes =
      of_bytes-IsBlock (c.compute bytes 16) (w.compute_bytes bytes 16)
        (omega (arith, w.compute_length bytes 16))

  sender_messages-Holds :
      (n : ℕ) (c_pk : List ec.Point) (gr : List ec.SecretKey) (pk0 : List ec.Point)
      → Holds (IsPairs n) (sender_messages c ec n c_pk gr pk0)
  unfolding sender_messages
  sender_messages-Holds n c_pk gr pk0 =
      build-Holds (λ (m : Block × Block). IsBlock m.0 × IsBlock m.1) _ n 0
        λ i. Holds-then _ (load pk0 i) _ λ p.
          Holds-then _ (load gr i) _
            λ k. Holds-then _ (load c_pk i) _ λ q. (hash_point-IsBlock _, hash_point-IsBlock _)

  receiver_messages-Holds :
      (n : ℕ) (choices : List Block) (keys : List ec.SecretKey) (gr_pk : List ec.Point)
      → Holds (IsMessages n) (receiver_messages c ec n choices keys gr_pk)
  unfolding receiver_messages
  receiver_messages-Holds n choices keys gr_pk = build-Holds IsBlock _ n 0 λ i.
      Holds-then _ (load gr_pk i) _ λ q.
        Holds-then _ (load keys i) _
          λ k. Holds-then _ (bit_from_blocks choices i) _ λ bit. hash_point-IsBlock _

  pub sender-Gives :
      (s : NaorPinkasSender ec)
      → Gives
          (λ (r : List (Block × Block) × NaorPinkasSender ec). IsPairs s.base_ot_sizes r.0)
          (send c ec s)
  unfolding send
  sender-Gives s = λ buff.
      let n = s.base_ot_sizes in
      let c_sk = create_keys ec n s.prng in
      let gr_sk = create_keys ec n c_sk.1 in
      let c_pk = map ec.create_public_key c_sk.0 in
      lift-Gives (IsPairs n) _ (sender_messages c ec n c_pk gr_sk.0 (points_of_bytes ec n buff)) _
        (sender_messages-Holds n c_pk gr_sk.0 (points_of_bytes ec n buff)) λ messages h. h

  pub receiver-Gives :
      (r : NaorPinkasReceiver ec) (choices : List Block)
      → Gives
          (λ (x : List Block × NaorPinkasReceiver ec). IsMessages r.base_ot_sizes x.0)
          (receive c ec r choices)
  unfolding receive
  receiver-Gives r choices = λ buff.
      let n = r.base_ot_sizes in
      let keys = create_keys ec n r.prng in
      let c_pk = points_of_bytes ec n buff in
      let gr_pk = points_of_bytes ec n (drop (n * 33) buff) in
      Gives-then _ (lift (sigma_points ec n choices keys.0 c_pk)) _ λ sigma.
        lift-Gives (IsMessages n) _ (receiver_messages c ec n choices keys.0 gr_pk) _
          (receiver_messages-Holds n choices keys.0 gr_pk) λ messages h. h
