-- ===== src/Kkrt/Schedules.antt =====
-- A session of the extension under every order of the network's steps.
use petace_verse.Common.{◌+◌, ◌*◌, ◌/◌, ℕ, List, length, All}
use petace_verse.Util.Memory.{Block, IsBlock}
use petace_verse.Crypto.{Crypto, IsCrypto}
use petace_verse.Net.{done}
use petace_verse.Net.Run.{Config, Steps, start, idle}
use petace_verse.Net.Schedules.{OnTheWay, every_schedule}
use petace_verse.Kkrt.{KkrtNcoOtExtSender, KkrtNcoOtExtReceiver, round_up, send, receive}
use petace_verse.Kkrt.Transfer.{IsSized, EncodeSynced, session_encodes}

module _ (c : Crypto) where
  -- When sender and receiver are set up for the same base transfers and the choices are blocks, at
  -- least one and such that 64 bits hold the sizes, then however the steps of the two parties are
  -- interleaved, and wherever the run stands, neither has failed, a step is possible unless both
  -- are done, and two steps in all complete it to the one end in which both have returned.
  pub encoding_session_ends :
      (s : KkrtNcoOtExtSender c) (r : KkrtNcoOtExtReceiver c) (choices : List Block)
      (w : IsCrypto c) (sync : EncodeSynced c s r)
      (sized : IsSized s.base_ot_sizes (length choices)) (blocks : All IsBlock choices) (m : ℕ)
      (e : Config (Unit {0} × KkrtNcoOtExtSender c) (List Block × KkrtNcoOtExtReceiver c))
      → Steps m (start (send c s (length choices)) (receive c r choices)) e
      → let t = session_encodes c s r choices w sync sized blocks in
        OnTheWay 2 m e (
          idle 0
            (0 + round_up (length choices) * (s.base_ot_sizes / 128) * 16)
            (done (tt, t.sender))
            (done (t.messages, t.receiver)))
  encoding_session_ends s r choices w sync sized blocks m e steps =
      let t = session_encodes c s r choices w sync sized blocks in
      every_schedule 2 _ _ (start (send c s (length choices)) (receive c r choices)) _ _ (t.run 0 0)
        m e steps
