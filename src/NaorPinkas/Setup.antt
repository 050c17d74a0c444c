-- ===== src/NaorPinkas/Setup.antt =====
-- From the base transfers to a session of an extension. The roles change: the extension's sender
-- takes the base receiver's messages, the extension's receiver the base sender's.
use petace_verse.Common.{ℕ, ◌/◌, ◌%◌, ◌*◌, ◌^◌, ◌≤◌, ◌<◌, List, length, get_or, All, ◌≡◌, arith, ok}
use petace_verse.Util.Memory.{Block, IsBlock}
use petace_verse.Crypto.{Crypto, IsCrypto}
use petace_verse.Curve.{Curve, IsCurve}
use petace_verse.NaorPinkas.{NaorPinkasSender, NaorPinkasReceiver}
use petace_verse.NaorPinkas.Points.{create_keys, sigma_points}
use petace_verse.NaorPinkas.Bytes.{public_keys}
use petace_verse.NaorPinkas.Transfer.{BaseTransferred, base_session_transfers}
use petace_verse.Iknp as Iknp
use petace_verse.Iknp.Transfer.{Transferred, session_transfers}
use petace_verse.Iknp.Setup.{set_base_ots-Synced}
use petace_verse.Kkrt as Kkrt
use petace_verse.Kkrt.Transfer.{Encoded, IsSized, session_encodes}
use petace_verse.Kkrt.Setup.{set_base_ots-EncodeSynced}

module _ (c : Crypto) (ec : Curve) (IsEncodable : ec.Point → Type 0) where
  -- The receiver's points are such that 33 bytes hold them.
  abbrev pub PointsFit : NaorPinkasSender ec → NaorPinkasReceiver ec → List Block → Type 0
  PointsFit s r choices =
      (sigma : List ec.Point)
      → sigma_points ec s.base_ot_sizes choices (create_keys ec s.base_ot_sizes r.prng).0
          (public_keys ec s.base_ot_sizes s.prng)
        ≡ ok sigma
      → All IsEncodable sigma

  -- The base transfers and IKNP one after the other. Under the laws of the curve and the
  -- generators, when base sender and receiver are created for 128 transfers, 33 bytes hold the
  -- receiver's points and the base choices hold a block, the base transfers end with a result on
  -- both sides; fresh IKNP objects that take these results, the sender the receiver's and the
  -- receiver the sender's, for a positive number of whole blocks of transfers below 2^60, then end
  -- a session for choices that are blocks and cover the number, with the sender's messages at the
  -- choice bits on the receiver's side.
  pub base_transfers-Transferred :
      (s : NaorPinkasSender ec) (r : NaorPinkasReceiver ec) (choices ext_choices : List Block)
      (ext : ℕ)
      → IsCrypto c
      → IsCurve ec IsEncodable
      → s.base_ot_sizes ≡ 128
      → r.base_ot_sizes ≡ 128
      → PointsFit s r choices
      → 0 < ext
      → ext % 128 ≡ 0
      → ext * 16 < 2 ^ 64
      → 0 < length choices
      → IsBlock (get_or choices 0 0)
      → ext ≤ 128 * length ext_choices
      → All IsBlock ext_choices
      → (t : BaseTransferred c ec s r choices) × Transferred c
          (Iknp.sender_set_base_ots c (Iknp.iknp_sender c 128 ext) choices t.received)
          (Iknp.receiver_set_base_ots c (Iknp.iknp_receiver c 128 ext) t.sent)
          ext_choices
  unfolding Iknp.sender_set_base_ots Iknp.iknp_sender
  base_transfers-Transferred s r choices ext_choices ext w wc hs hr points pos whole fits some block
        covered blocks =
      let t =
        base_session_transfers c ec s r choices IsEncodable wc (omega (arith, hs, hr))
          (omega (arith, hs)) points in
      (
        t,
        session_transfers c _ _ ext_choices w
            (set_base_ots-Synced c ext choices t.received t.sent pos whole fits some block
              (omega (arith, t.length_received, hs)) (omega (arith, t.length_sent, hs))
              (λ k lt. t.picks k (omega (arith, hs))))
            covered blocks,
      )

  -- The base transfers and KKRT one after the other. Under the laws of the curve and the
  -- generators, when base sender and receiver are created for the same multiple of 128, 33 bytes
  -- hold the receiver's points, the base choices are blocks and as many bits, and the choices of
  -- the session are blocks, at least one and such that 64 bits hold the sizes, the base transfers
  -- end with a result on both sides, and fresh KKRT objects that take these results, the sender
  -- the receiver's and the receiver the sender's, end a session, in which `encode` of the sender
  -- at each choice is the receiver's message.
  pub base_transfers-Encoded :
      (s : NaorPinkasSender ec) (r : NaorPinkasReceiver ec) (choices ext_choices : List Block)
      → IsCrypto c
      → IsCurve ec IsEncodable
      → r.base_ot_sizes ≡ s.base_ot_sizes
      → s.base_ot_sizes % 128 ≡ 0
      → s.base_ot_sizes / 128 ≤ length choices
      → PointsFit s r choices
      → All IsBlock choices
      → IsSized s.base_ot_sizes (length ext_choices)
      → All IsBlock ext_choices
      → (t : BaseTransferred c ec s r choices) × Encoded c
          (Kkrt.sender_set_base_ots c (Kkrt.kkrt_sender c s.base_ot_sizes) choices t.received)
          (Kkrt.receiver_set_base_ots c (Kkrt.kkrt_receiver c s.base_ot_sizes) t.sent)
          ext_choices
  unfolding Kkrt.sender_set_base_ots Kkrt.kkrt_sender
  base_transfers-Encoded s r choices ext_choices w wc same whole enough points all sized blocks =
      let t = base_session_transfers c ec s r choices IsEncodable wc same (omega arith) points in
      (
        t,
        session_encodes c _ _ ext_choices w
            (set_base_ots-EncodeSynced c s.base_ot_sizes choices t.received t.sent whole enough all
              t.length_received t.length_sent t.picks)
            sized blocks,
      )
