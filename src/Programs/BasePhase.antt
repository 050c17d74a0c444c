-- ===== src/Programs/BasePhase.antt =====
-- The base transfers that open the extension programs: party 0 receives and party 1 sends.
use petace_verse.Common.{ℕ, ◌+◌, ◌*◌, ◌≤◌, List, length, refl, arith}
use petace_verse.Util.Memory.{Block}
use petace_verse.Crypto.{Crypto}
use petace_verse.Curve.{Curve, IsCurve}
use petace_verse.Net.{Proc, done, ◌>>=◌}
use petace_verse.Net.Run.{Steps, start, idle}
use petace_verse.Net.Compose.{mirror-Steps, retimed, run_then, Steps-trans}
use petace_verse.NaorPinkas as NaorPinkas
use petace_verse.NaorPinkas.{
  NaorPinkasSender, NaorPinkasReceiver, naor_pinkas_sender, naor_pinkas_receiver,
}
use petace_verse.Sessions.Protocols.{Chose, Sendable, base-Session}
use petace_verse.Programs.{Environment}

module _ (c : Crypto) (ec : Curve) where
  -- The base transfers of `n` messages, with the run to them.
  pub record BasePhase (n : ℕ) (choices : List Block) (env0 env1 : Environment ec) : Type 0 where
    pub received : List Block
    pub sent : List (Block × Block)
    pub receiver : NaorPinkasReceiver ec
    pub sender : NaorPinkasSender ec
    pub run :
        Steps 4
          (start
            (NaorPinkas.receive c ec (naor_pinkas_receiver ec n env0.receiver_source) choices)
            (NaorPinkas.send c ec (naor_pinkas_sender ec n env1.sender_source)))
          (idle (n * 33) (2 * n * 33) (done (received, receiver)) (done (sent, sender)))
    pub chose : Chose n choices sent received

  pub base_phase :
      (n : ℕ) (choices : List Block) (env0 env1 : Environment ec) (IsEncodable : ec.Point → Type 0)
      → IsCurve ec IsEncodable
      → n ≤ 128 * length choices
      → Sendable ec choices IsEncodable 1 n env1.sender_source env0.receiver_source
      → BasePhase n choices env0 env1
  unfolding naor_pinkas_sender naor_pinkas_receiver
  base_phase n choices env0 env1 IsEncodable w enough sendable =
      let base =
        base-Session ec choices IsEncodable c w n enough 0
          (naor_pinkas_sender ec n env1.sender_source)
          (naor_pinkas_receiver ec n env0.receiver_source) (refl, refl, sendable) in
      record {
        received = base.right_out;
        sent = base.left_out;
        receiver = base.right_after;
        sender = base.left_after;
        run =
            retimed 4 4 (0 + n * 33) (n * 33) (0 + 2 * n * 33) (2 * n * 33) _ _ _ refl (omega arith)
              (omega arith) (mirror-Steps (base.run 0 0));
        chose = base.post;
      }

  -- The base transfers, and then a run of what the two programs do with them.
  pub phases :
      {C D : Type 0} (n m i j : ℕ) (choices : List Block) (env0 env1 : Environment ec)
      (base : BasePhase n choices env0 env1) (f : List Block × NaorPinkasReceiver ec → Proc C)
      (g : List (Block × Block) × NaorPinkasSender ec → Proc D) (x : C) (y : D)
      → Steps m
          (idle
            (n * 33)
            (2 * n * 33)
            (f (base.received, base.receiver))
            (g (base.sent, base.sender)))
          (idle i j (done x) (done y))
      → Steps
          (4 + m)
          (start
            (NaorPinkas.receive c ec (naor_pinkas_receiver ec n env0.receiver_source) choices >>= f)
            (NaorPinkas.send c ec (naor_pinkas_sender ec n env1.sender_source) >>= g))
          (idle i j (done x) (done y))
  phases n m i j choices env0 env1 base f g x y rest =
      Steps-trans
        (run_then f g 4 0 0 (n * 33) (2 * n * 33) _ _ (base.received, base.receiver)
          (base.sent, base.sender) base.run)
        rest
