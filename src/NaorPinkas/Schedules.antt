-- ===== src/NaorPinkas/Schedules.antt =====
-- A run of the base transfers under every order of the network's steps.
use petace_verse.Common.{ℕ, ◌+◌, ◌*◌, ◌≤◌, List, ok, length, All, ◌≡◌}
use petace_verse.Util.Memory.{Block}
use petace_verse.Crypto.{Crypto}
use petace_verse.Curve.{Curve, IsCurve}
use petace_verse.Net.{done}
use petace_verse.Net.Run.{Config, Steps, start, idle}
use petace_verse.Net.Schedules.{OnTheWay, every_schedule}
use petace_verse.NaorPinkas.{NaorPinkasSender, NaorPinkasReceiver, send, receive}
use petace_verse.NaorPinkas.Points.{create_keys, sigma_points}
use petace_verse.NaorPinkas.Bytes.{public_keys}
use petace_verse.NaorPinkas.Transfer.{base_session_transfers}

module _ (c : Crypto) (ec : Curve) where
  -- When sender and receiver are created for the same number of transfers, the choices have as many
  -- bits and 33 bytes hold the receiver's points, then however the steps of the two parties are
  -- interleaved, and wherever the run stands, neither has failed, a step is possible unless both are
  -- done, and four steps in all complete it to the one end in which both hold their results.
  pub base_session_ends :
      (s : NaorPinkasSender ec) (r : NaorPinkasReceiver ec) (choices : List Block)
      (IsEncodable : ec.Point → Type 0) (w : IsCurve ec IsEncodable)
      (same : r.base_ot_sizes ≡ s.base_ot_sizes) (enough : s.base_ot_sizes ≤ 128 * length choices)
      (encodable : (sigma : List ec.Point)
        → sigma_points ec s.base_ot_sizes choices
            (create_keys ec s.base_ot_sizes r.prng).0
            (public_keys ec s.base_ot_sizes s.prng)
          ≡ ok sigma
        → All IsEncodable sigma)
      (m : ℕ)
      (e : Config (List (Block × Block) × NaorPinkasSender ec) (List Block × NaorPinkasReceiver ec))
      → Steps m (start (send c ec s) (receive c ec r choices)) e
      → let t = base_session_transfers c ec s r choices IsEncodable w same enough encodable in
        OnTheWay 4 m e (
          idle
            (0 + 2 * s.base_ot_sizes * 33)
            (0 + s.base_ot_sizes * 33)
            (done (t.sent, t.sender))
            (done (t.received, t.receiver)))
  base_session_ends s r choices IsEncodable w same enough encodable m e steps =
      let t = base_session_transfers c ec s r choices IsEncodable w same enough encodable in
      every_schedule 4 _ _ (start (send c ec s) (receive c ec r choices)) _ _ (t.run 0 0) m e steps
