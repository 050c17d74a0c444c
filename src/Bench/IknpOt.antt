-- ===== src/Bench/IknpOt.antt =====
-- `iknp_ot_bench` of bench/verse_bench.cpp: base transfers, then any number of IKNP sessions.
use petace_verse.Common.{
  ℕ, ◌+◌, ◌*◌, ◌/◌, ◌<◌, List, [], ◌∷◌, ◌==◌, if◌then◌else◌, tabulate, ◌≡◌, refl, arith,
}
use petace_verse.Util.Memory.{Block}
use petace_verse.Crypto.{Crypto, IsCrypto}
use petace_verse.Curve.{Curve, IsCurve}
use petace_verse.Net.{done, ◌>>=◌}
use petace_verse.Net.Run.{idle}
use petace_verse.Net.Schedules.{AlwaysEnds, run-AlwaysEnds}
use petace_verse.Net.Compose.{run_then, run_later, retimed}
use petace_verse.NaorPinkas as NaorPinkas
use petace_verse.NaorPinkas.{naor_pinkas_sender, naor_pinkas_receiver}
use petace_verse.Iknp as Iknp
use petace_verse.Iknp.{IknpOtExtSender, IknpOtExtReceiver, iknp_sender, iknp_receiver}
use petace_verse.Factory.{
  VerseParams, build_verse, naor_pinkas_sender_scheme, naor_pinkas_receiver_scheme,
  iknp_sender_scheme, iknp_receiver_scheme,
}
use petace_verse.Factory.Registrations.{
  base_ot_sender_factory, base_ot_receiver_factory, ext_ot_sender_factory, ext_ot_receiver_factory,
  factories_build,
}
use petace_verse.Sessions.{repeat, sessions_repeat}
use petace_verse.Sessions.Protocols.{Chose, Sendable, IknpReady}
use petace_verse.Programs.{Environment, IsEnvironment, read_block_from_dev_urandom}
use petace_verse.Programs.BasePhase.{base_phase, phases}
use petace_verse.Programs.IknpPhase.{
  base_choices_of, ext_choices_of, params, iknp_prepared, iknp_calls,
}
use petace_verse.Bench.{
  Clock, Party, Bench, Report, logged, returned, case_np_ot, case_iknp_ot, timed, lifted, and_then,
  ◌>>>◌, try_catch,
}
use petace_verse.Bench.Metered.{counted, after, timed-Steps}

-- `send_msgs` and `recv_msgs`
abbrev pub Messages : Type 0
Messages = List (Block × Block) × List Block

module _ (c : Crypto) (ec : Curve) {clock : Clock} where
  unfoldable pub iknp_ot_bench : Environment ec → ℕ → ℕ → Bench clock (Report Messages)
  iknp_ot_bench env party_id test_number =
      let params : VerseParams = record { base_ot_sizes = 128; ext_ot_sizes = 1024 } in
      let base_choices = read_block_from_dev_urandom env 0 ∷ [] in
      let ext_choices = tabulate (1024 / 16) 1 (read_block_from_dev_urandom env) in
      try_catch (
        lifted (
          build_verse (base_ot_sender_factory c ec env.sender_source) naor_pinkas_sender_scheme
            params)
        >>> λ npot_sender.
            lifted (
              build_verse (base_ot_receiver_factory c ec env.receiver_source)
                naor_pinkas_receiver_scheme params)
            >>> λ npot_receiver.
                lifted (build_verse (ext_ot_sender_factory c) iknp_sender_scheme params)
                >>> λ iknp_sender.
                    lifted (build_verse (ext_ot_receiver_factory c) iknp_receiver_scheme params)
                    >>> λ iknp_receiver.
                        timed case_iknp_ot case_np_ot
                          (params.base_ot_sizes ∷ params.ext_ot_sizes ∷ []) test_number
                          (if party_id == 0
                            then (npot_receiver.receive npot_receiver.state base_choices >>= λ base.
                                repeat test_number iknp_sender.send []
                                  (iknp_sender.set_base_ots iknp_sender.state base_choices base.0)
                                >>= λ end. done (end.0, []))
                            else (npot_sender.send npot_sender.state >>= λ base.
                                repeat test_number (λ s. iknp_receiver.receive s ext_choices) []
                                  (iknp_receiver.set_base_ots iknp_receiver.state base.0)
                                >>= λ end. done ([], end.0))))

module _ (c : Crypto) (ec : Curve) where
  sender_bench :
      {clock : Clock} (env : Environment ec) (test_number : ℕ) (st : Party clock)
      → iknp_ot_bench c ec env 0 test_number st
        ≡ try_catch
            (timed case_iknp_ot case_np_ot (128 ∷ 1024 ∷ []) test_number (
              NaorPinkas.receive c ec
                (naor_pinkas_receiver ec 128 env.receiver_source)
                (base_choices_of env)
              >>= λ base.
                  repeat test_number (Iknp.send c) [] (
                    Iknp.sender_set_base_ots c
                      (iknp_sender c 128 1024)
                      (base_choices_of env)
                      base.0)
                  >>= λ end. done (end.0, [])))
            st
  unfolding iknp_ot_bench lifted and_then
  sender_bench env test_number st =
      rw
        (
          (factories_build c ec env.sender_source naor_pinkas_sender_scheme params).0,
          (factories_build c ec env.receiver_source naor_pinkas_receiver_scheme params).1,
          (factories_build c ec env.sender_source iknp_sender_scheme params).2,
          (factories_build c ec env.sender_source iknp_receiver_scheme params).3,
        )
        refl

  receiver_bench :
      {clock : Clock} (env : Environment ec) (test_number : ℕ) (st : Party clock)
      → iknp_ot_bench c ec env 1 test_number st
        ≡ try_catch
            (timed case_iknp_ot case_np_ot (128 ∷ 1024 ∷ []) test_number (
              NaorPinkas.send c ec (naor_pinkas_sender ec 128 env.sender_source) >>= λ base.
              repeat test_number
                (λ (r : IknpOtExtReceiver c). Iknp.receive c r (ext_choices_of env))
                []
                (Iknp.receiver_set_base_ots c (iknp_receiver c 128 1024) base.0)
              >>= λ end. done ([], end.0)))
            st
  unfolding iknp_ot_bench lifted and_then
  receiver_bench env test_number st =
      rw
        (
          (factories_build c ec env.sender_source naor_pinkas_sender_scheme params).0,
          (factories_build c ec env.receiver_source naor_pinkas_receiver_scheme params).1,
          (factories_build c ec env.sender_source iknp_sender_scheme params).2,
          (factories_build c ec env.sender_source iknp_receiver_scheme params).3,
        )
        refl

  -- The messages that the two parties end with, and the run to them.
  pub record IknpOtMeasured (clock : Clock) (test_number : ℕ) (env0 env1 : Environment ec)
      : Type 0 where
    pub sent : List (Block × Block)
    pub received : List Block
    pub run :
        (s t : Party clock) (i j : ℕ)
        → let i' = i + 128 * 33 in
          let j' = j + (2 * 128 * 33 + test_number * (1024 * 16)) in
          AlwaysEnds
            (4 + test_number * 2)
            (idle i j
              (iknp_ot_bench c ec env0 0 test_number (counted s i j))
              (iknp_ot_bench c ec env1 1 test_number (counted t j i)))
            (idle i' j'
              (done (
                returned (logged (sent, [])),
                after case_iknp_ot case_np_ot (128 ∷ 1024 ∷ []) test_number s i' j',
              ))
              (done (
                returned (logged ([], received)),
                after case_iknp_ot case_np_ot (128 ∷ 1024 ∷ []) test_number t j' i',
              )))
    pub chose : 0 < test_number → Chose 1024 (ext_choices_of env1) sent received

  -- Under the laws of the generators, the hash, the curve and the random bytes, when 33 bytes hold
  -- the points of party 0, the two parties of the benchmark, whatever bytes went before, end
  -- without an exception, have sent 128 * 33 bytes more, and 128 * 66 bytes and 1024 * 16 for each
  -- session, and unless there is no session, party 1 has the messages of party 0 at its choice bits
  -- in the last one. Both log their begin as the case iknp_ot and their end as the case np_ot, with
  -- two readings of the clock, their difference, and all the bytes that were sent and received so
  -- far. However the steps of the two parties are interleaved, and wherever the run stands, neither
  -- has failed, a step is possible unless both are done, and the steps that are left lead to the
  -- same end.
  pub iknp_ot_bench_measures :
      (clock : Clock) (test_number : ℕ) (env0 env1 : Environment ec)
      (IsEncodable : ec.Point → Type 0)
      → IsCrypto c
      → IsCurve ec IsEncodable
      → IsEnvironment env0
      → IsEnvironment env1
      → Sendable ec (base_choices_of env0) IsEncodable 1 128 env1.sender_source env0.receiver_source
      → IknpOtMeasured clock test_number env0 env1
  iknp_ot_bench_measures clock test_number env0 env1 IsEncodable w wc e0 e1 sendable =
      let base =
        base_phase c ec 128 (base_choices_of env0) env0 env1 IsEncodable wc (omega arith)
          sendable in
      let calls =
        sessions_repeat (Iknp.send c)
          (λ (r : IknpOtExtReceiver c). Iknp.receive c r (ext_choices_of env1)) (IknpReady c 1024)
          (λ s r. Chose 1024 (ext_choices_of env1)) 2 0 (1024 * 16) (iknp_calls c ec env1 w e1)
          test_number [] []
          (Iknp.sender_set_base_ots c (iknp_sender c 128 1024) (base_choices_of env0) base.received)
          (Iknp.receiver_set_base_ots c (iknp_receiver c 128 1024) base.sent)
          (iknp_prepared c ec env0 env1 e0 base test_number) in
      record {
        sent = calls.left_out;
        received = calls.right_out;
        run = λ s t i j.
            let i' = i + 128 * 33 in
            let j' = j + (2 * 128 * 33 + test_number * (1024 * 16)) in
            run-AlwaysEnds (4 + test_number * 2) _ _ _ _ _ (
              rw
                (
                  sender_bench env0 test_number (counted s i j),
                  receiver_bench env1 test_number (counted t j i),
                )
                (timed-Steps case_iknp_ot case_np_ot (128 ∷ 1024 ∷ []) test_number
                  (4 + test_number * 2) i j i' j' _ _ (calls.left_out, []) ([], calls.right_out) s t
                  (run_later i j (4 + test_number * 2) (128 * 33)
                    (2 * 128 * 33 + test_number * (1024 * 16)) _ _ _ _
                    (phases c ec 128 (test_number * 2) (128 * 33)
                      (2 * 128 * 33 + test_number * (1024 * 16)) (base_choices_of env0) env0 env1
                      base _ _ (calls.left_out, []) ([], calls.right_out)
                      (retimed (test_number * 2) (test_number * 2) (128 * 33 + test_number * 0)
                        (128 * 33) _ _ _ _ _ refl (omega arith) refl
                        (run_then (λ (x : List (Block × Block) × IknpOtExtSender c). done (x.0, []))
                          (λ (x : List Block × IknpOtExtReceiver c). done ([], x.0))
                          (test_number * 2) (128 * 33) (2 * 128 * 33) (128 * 33 + test_number * 0)
                          (2 * 128 * 33 + test_number * (1024 * 16)) _ _
                          (calls.left_out, calls.left_after) (calls.right_out, calls.right_after)
                          (calls.run (128 * 33) (2 * 128 * 33))))))));
        chose = calls.post;
      }
