-- ===== src/Iknp/Schedules.antt =====
-- A session of the extension under every order of the network's steps.
use petace_verse.Common.{◌+◌, ◌*◌, ℕ, ◌*◌, ◌≤◌, List, length, All}
use petace_verse.Util.Memory.{Block, IsBlock}
use petace_verse.Crypto.{Crypto, IsCrypto}
use petace_verse.Net.{done}
use petace_verse.Net.Run.{Config, Steps, start, idle}
use petace_verse.Net.Schedules.{OnTheWay, every_schedule}
use petace_verse.Iknp.{IknpOtExtSender, IknpOtExtReceiver, send, receive}
use petace_verse.Iknp.Transfer.{Synced, session_transfers}

module _ (c : Crypto) where
  -- When sender and receiver are set up for the same transfers, and the choices are blocks and at
  -- least as many bits, then however the steps of the two parties are interleaved, and wherever the
  -- run stands, neither has failed, a step is possible unless both are done, and two steps in all
  -- complete it to the one end in which both parties hold their results.
  pub session_ends :
      (s : IknpOtExtSender c) (r : IknpOtExtReceiver c) (choices : List Block) (w : IsCrypto c)
      (sync : Synced c s r) (enough : s.ext_ot_sizes ≤ 128 * length choices)
      (blocks : All IsBlock choices) (m : ℕ)
      (e : Config (List (Block × Block) × IknpOtExtSender c) (List Block × IknpOtExtReceiver c))
      → Steps m (start (send c s) (receive c r choices)) e
      → let t = session_transfers c s r choices w sync enough blocks in
        OnTheWay 2 m e (
          idle 0
            (0 + s.ext_ot_sizes * 16)
            (done (t.sent, t.sender))
            (done (t.received, t.receiver)))
  session_ends s r choices w sync enough blocks m e steps =
      let t = session_transfers c s r choices w sync enough blocks in
      every_schedule 2 _ _ (start (send c s) (receive c r choices)) _ _ (t.run 0 0) m e steps
