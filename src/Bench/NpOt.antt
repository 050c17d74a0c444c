-- ===== src/Bench/NpOt.antt =====
-- `np_ot_bench` of bench/verse_bench.cpp: any number of calls of the base transfers.
use petace_verse.Common.{
  ℕ, suc, ◌+◌, ◌*◌, ◌<◌, List, [], ◌∷◌, ◌==◌, if◌then◌else◌, ◌≡◌, refl, arith,
}
use petace_verse.Util.Memory.{Block}
use petace_verse.Crypto.{Crypto}
use petace_verse.Curve.{Curve, IsCurve}
use petace_verse.Net.{Proc, done, ◌>>=◌}
use petace_verse.Net.Run.{idle}
use petace_verse.Net.Schedules.{AlwaysEnds, run-AlwaysEnds}
use petace_verse.Net.Compose.{run_then}
use petace_verse.NaorPinkas.{
  NaorPinkasSender, NaorPinkasReceiver, naor_pinkas_sender, naor_pinkas_receiver,
}
use petace_verse.Interfaces.{BaseOtSender, BaseOtReceiver}
use petace_verse.Interfaces.Creators.{create_naor_pinkas_sender, create_naor_pinkas_receiver}
use petace_verse.Factory.{
  VerseParams, build_verse, naor_pinkas_sender_scheme, naor_pinkas_receiver_scheme,
}
use petace_verse.Factory.Registrations.{
  base_ot_sender_factory, base_ot_receiver_factory, factories_build,
}
use petace_verse.Sessions.{repeat, Session, sessions_repeat}
use petace_verse.Sessions.Protocols.{Chose, Sendable, BaseReady, base-Session}
use petace_verse.Programs.{Environment, read_block_from_dev_urandom}
use petace_verse.Bench.{
  Clock, Party, Bench, Report, logged, returned, case_np_ot, timed, lifted, and_then, ◌>>>◌,
  try_catch,
}
use petace_verse.Bench.Metered.{counted, after, timed-Steps}

-- The two message vectors of the benchmark.
abbrev pub Messages : Type 0
Messages = List (Block × Block) × List Block

-- The local variables that the loop changes: the messages and the two objects.
abbrev pub Locals : BaseOtSender → BaseOtReceiver → Type 0
Locals sender receiver = Messages × (sender.State × receiver.State)

-- The body of the loop.
unfoldable pub np_ot_call :
    ℕ
    → (sender : BaseOtSender) (receiver : BaseOtReceiver) → List Block
    → Locals sender receiver
    → Proc (Unit {0} × Locals sender receiver)
np_ot_call party_id sender receiver base_choices ((base_send_ots, base_recv_ots), (s, r)) =
    if party_id == 0
    then (sender.send s >>= λ x. done (tt, ((x.0, base_recv_ots), (x.1, r))))
    else (receiver.receive r base_choices >>= λ x. done (tt, ((base_send_ots, x.0), (s, x.1))))

module _ (c : Crypto) (ec : Curve) {clock : Clock} where
  unfoldable pub np_ot_bench : Environment ec → ℕ → ℕ → Bench clock (Report Messages)
  np_ot_bench env party_id test_number =
      let params : VerseParams = record { base_ot_sizes = 128; ext_ot_sizes = 0 } in
      let base_choices = read_block_from_dev_urandom env 0 ∷ [] in
      try_catch (
        lifted (
          build_verse (base_ot_sender_factory c ec env.sender_source) naor_pinkas_sender_scheme
            params)
        >>> λ npot_sender.
            lifted (
              build_verse (base_ot_receiver_factory c ec env.receiver_source)
                naor_pinkas_receiver_scheme params)
            >>> λ npot_receiver.
                timed case_np_ot case_np_ot (params.base_ot_sizes ∷ []) test_number (
                  repeat test_number (np_ot_call party_id npot_sender npot_receiver base_choices) tt
                    (([], []), (npot_sender.state, npot_receiver.state))
                  >>= λ end. done end.1.0))

module _ (c : Crypto) (ec : Curve) where
  abbrev sender_object : Environment ec → BaseOtSender
  sender_object env =
      create_naor_pinkas_sender c ec env.sender_source
        (record { base_ot_sizes = 128; ext_ot_sizes = 0 })

  abbrev receiver_object : Environment ec → BaseOtReceiver
  receiver_object env =
      create_naor_pinkas_receiver c ec env.receiver_source
        (record { base_ot_sizes = 128; ext_ot_sizes = 0 })

  abbrev Objects : Type 0
  Objects = Messages × (NaorPinkasSender ec × NaorPinkasReceiver ec)

  -- The loop of either party.
  np_ot_bench-eq :
      {clock : Clock} (env : Environment ec) (party_id test_number : ℕ) (st : Party clock)
      → np_ot_bench c ec env party_id test_number st
        ≡ try_catch
            (timed case_np_ot case_np_ot (128 ∷ []) test_number (
              repeat test_number
                (np_ot_call party_id
                  (sender_object env)
                  (receiver_object env)
                  (read_block_from_dev_urandom env 0 ∷ []))
                tt
                (([], []), ((sender_object env).state, (receiver_object env).state))
              >>= λ end. done end.1.0))
            st
  unfolding np_ot_bench lifted and_then
  np_ot_bench-eq env party_id test_number st =
      let params : VerseParams = record { base_ot_sizes = 128; ext_ot_sizes = 0 } in
      rw
        (
          (factories_build c ec env.sender_source naor_pinkas_sender_scheme params).0,
          (factories_build c ec env.receiver_source naor_pinkas_receiver_scheme params).1,
        )
        refl

  module _ (env0 env1 : Environment ec) (IsEncodable : ec.Point → Type 0)
      (w : IsCurve ec IsEncodable) where
    abbrev choices : List Block
    choices = read_block_from_dev_urandom env1 0 ∷ []

    abbrev Ready : ℕ → Objects → Objects → Type 0
    Ready m s r = BaseReady ec choices IsEncodable 128 m s.1.0 r.1.1

    abbrev Post : Objects → Objects → Unit {0} → Unit {0} → Type 0
    Post s r x y = Chose 128 choices s.0.0 r.0.1

    -- One turn of the loop on both sides.
    turn :
        (m : ℕ) (s r : Objects)
        → Ready (suc m) s r
        → Session
            (np_ot_call 0
              (sender_object env0)
              (receiver_object env0)
              (read_block_from_dev_urandom env0 0 ∷ []))
            (np_ot_call 1 (sender_object env1) (receiver_object env1) choices)
            Ready
            Post
            4
            (2 * 128 * 33)
            (128 * 33)
            m
            s
            r
    unfolding np_ot_call
    turn m ((a0, b0), (s0, r0)) ((a1, b1), (s1, r1)) ready =
        let call = base-Session ec choices IsEncodable c w 128 (omega arith) m s0 r1 ready in
        let after_send : List (Block × Block) × NaorPinkasSender ec → Proc (Unit {0} × Objects) =
          λ x. done (tt, ((x.0, b0), (x.1, r0))) in
        let after_receive : List Block × NaorPinkasReceiver ec → Proc (Unit {0} × Objects) =
          λ x. done (tt, ((a1, x.0), (s1, x.1))) in
        record {
          left_out = tt;
          right_out = tt;
          left_after = ((call.left_out, b0), (call.left_after, r0));
          right_after = ((a1, call.right_out), (s1, call.right_after));
          run = λ i j.
              run_then after_send after_receive 4 i j (i + 2 * 128 * 33) (j + 128 * 33) _ _
                (call.left_out, call.left_after) (call.right_out, call.right_after) (call.run i j);
          ready = call.ready;
          post = call.post;
        }

  -- The messages that the two parties end with, and the run to them.
  pub record NpOtMeasured (clock : Clock) (test_number : ℕ) (env0 env1 : Environment ec)
      : Type 0 where
    pub left_messages : Messages
    pub right_messages : Messages
    pub run :
        (s t : Party clock) (i j : ℕ)
        → let i' = i + test_number * (2 * 128 * 33) in
          let j' = j + test_number * (128 * 33) in
          AlwaysEnds
            (test_number * 4)
            (idle i j
              (np_ot_bench c ec env0 0 test_number (counted s i j))
              (np_ot_bench c ec env1 1 test_number (counted t j i)))
            (idle i' j'
              (done (
                returned (logged left_messages),
                after case_np_ot case_np_ot (128 ∷ []) test_number s i' j',
              ))
              (done (
                returned (logged right_messages),
                after case_np_ot case_np_ot (128 ∷ []) test_number t j' i',
              )))
    pub chose :
        0 < test_number
        → Chose 128 (read_block_from_dev_urandom env1 0 ∷ []) left_messages.0 right_messages.1

  -- Under the laws of the curve, when 33 bytes hold the points of party 1 in each of the calls, the
  -- two parties of the benchmark, whatever bytes went before, end without an exception, have sent
  -- 128 * 66 and 128 * 33 bytes more for each call, and unless there is no call, party 1 has the
  -- messages of party 0 at its choice bits in the last one. Both log their begin and their end, with
  -- two readings of the clock, their difference, and all the bytes that were sent and received so
  -- far. However the steps of the two parties are interleaved, and wherever the run stands, neither
  -- has failed, a step is possible unless both are done, and the steps that are left lead to the
  -- same end.
  pub np_ot_bench_measures :
      (clock : Clock) (test_number : ℕ) (env0 env1 : Environment ec)
      (IsEncodable : ec.Point → Type 0)
      → IsCurve ec IsEncodable
      → Sendable ec
          (read_block_from_dev_urandom env1 0 ∷ [])
          IsEncodable
          test_number
          128
          env0.sender_source
          env1.receiver_source
      → NpOtMeasured clock test_number env0 env1
  unfolding naor_pinkas_sender naor_pinkas_receiver
  np_ot_bench_measures clock test_number env0 env1 IsEncodable w sendable =
      let calls =
        sessions_repeat _ _ (Ready env0 env1 IsEncodable w) (Post env0 env1 IsEncodable w) 4
          (2 * 128 * 33) (128 * 33) (turn env0 env1 IsEncodable w) test_number tt tt
          (([], []), ((sender_object env0).state, (receiver_object env0).state))
          (([], []), ((sender_object env1).state, (receiver_object env1).state))
          (refl, refl, sendable) in
      record {
        left_messages = calls.left_after.0;
        right_messages = calls.right_after.0;
        run = λ s t i j.
            let i' = i + test_number * (2 * 128 * 33) in
            let j' = j + test_number * (128 * 33) in
            run-AlwaysEnds (test_number * 4) _ _ _ _ _ (
              rw
                (
                  np_ot_bench-eq env0 0 test_number (counted s i j),
                  np_ot_bench-eq env1 1 test_number (counted t j i),
                )
                (timed-Steps case_np_ot case_np_ot (128 ∷ []) test_number (test_number * 4) i j i'
                  j' _ _ calls.left_after.0 calls.right_after.0 s t
                  (run_then (λ (x : Unit {0} × Objects). done x.1.0)
                    (λ (x : Unit {0} × Objects). done x.1.0) (test_number * 4) i j i' j' _ _
                    (calls.left_out, calls.left_after) (calls.right_out, calls.right_after)
                    (calls.run i j))));
        chose = calls.post;
      }
