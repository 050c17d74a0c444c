-- ===== src/Bench/KkrtOt.antt =====
-- `kkrt_ot_bench` of bench/verse_bench.cpp: base transfers, then any number of KKRT sessions.
use petace_verse.Common.{
  ℕ, ◌+◌, ◌*◌, ◌<◌, List, [], ◌∷◌, ◌==◌, if◌then◌else◌, tabulate, length, length-tabulate, ◌∙◌, ◌≡◌,
  refl, arith,
}
use petace_verse.Util.Memory.{set_epi64x, Block}
use petace_verse.Crypto.{Crypto, IsCrypto}
use petace_verse.Curve.{Curve, IsCurve}
use petace_verse.Net.{done, ◌>>=◌}
use petace_verse.Net.Run.{idle}
use petace_verse.Net.Schedules.{AlwaysEnds, run-AlwaysEnds}
use petace_verse.Net.Compose.{run_then, run_later, retimed}
use petace_verse.NaorPinkas as NaorPinkas
use petace_verse.NaorPinkas.{naor_pinkas_sender, naor_pinkas_receiver}
use petace_verse.Kkrt as Kkrt
use petace_verse.Kkrt.{KkrtNcoOtExtSender, KkrtNcoOtExtReceiver, kkrt_sender, kkrt_receiver}
use petace_verse.Factory.{
  VerseParams, build_verse, naor_pinkas_sender_scheme, naor_pinkas_receiver_scheme,
  kkrt_sender_scheme, kkrt_receiver_scheme,
}
use petace_verse.Factory.Registrations.{
  base_ot_sender_factory, base_ot_receiver_factory, nco_ext_ot_sender_factory,
  nco_ext_ot_receiver_factory, factories_build,
}
use petace_verse.Sessions.{repeat, sessions_repeat}
use petace_verse.Sessions.Protocols.{Encodes, Sendable, KkrtReady}
use petace_verse.Programs.{Environment, IsEnvironment, read_block_from_dev_urandom}
use petace_verse.Programs.BasePhase.{base_phase, phases}
use petace_verse.Programs.KkrtPhase.{
  base_choices_of, ext_choices, params, kkrt_prepared, kkrt_calls,
}
use petace_verse.Bench.{
  Clock, Party, Bench, Report, logged, returned, case_kkrt_ot, timed, lifted, and_then, ◌>>>◌,
  try_catch,
}
use petace_verse.Bench.Metered.{counted, after, timed-Steps}

-- `recv_msgs`
abbrev pub Messages : Type 0
Messages = List Block

module _ (c : Crypto) (ec : Curve) {clock : Clock} where
  unfoldable pub kkrt_ot_bench : Environment ec → ℕ → ℕ → Bench clock (Report Messages)
  kkrt_ot_bench env party_id test_number =
      let params : VerseParams = record { base_ot_sizes = 512; ext_ot_sizes = 1024 } in
      let base_choices = tabulate 4 0 (read_block_from_dev_urandom env) in
      let ext_choices = tabulate 1024 0 (set_epi64x 0) in
      try_catch (
        lifted (
          build_verse (base_ot_sender_factory c ec env.sender_source) naor_pinkas_sender_scheme
            params)
        >>> λ npot_sender.
            lifted (
              build_verse (base_ot_receiver_factory c ec env.receiver_source)
                naor_pinkas_receiver_scheme params)
            >>> λ npot_receiver.
                lifted (build_verse (nco_ext_ot_sender_factory c) kkrt_sender_scheme params)
                >>> λ kkrt_sender.
                    lifted (build_verse (nco_ext_ot_receiver_factory c) kkrt_receiver_scheme params)
                    >>> λ kkrt_receiver.
                        timed case_kkrt_ot case_kkrt_ot
                          (params.base_ot_sizes ∷ params.ext_ot_sizes ∷ []) test_number
                          (if party_id == 0
                            then (npot_receiver.receive npot_receiver.state base_choices >>= λ base.
                                repeat test_number (λ s. kkrt_sender.send s params.ext_ot_sizes) tt
                                  (kkrt_sender.set_base_ots kkrt_sender.state base_choices base.0)
                                >>= λ end. done [])
                            else (npot_sender.send npot_sender.state >>= λ base.
                                repeat test_number (λ s. kkrt_receiver.receive s ext_choices) []
                                  (kkrt_receiver.set_base_ots kkrt_receiver.state base.0)
                                >>= λ end. done end.0)))

module _ (c : Crypto) (ec : Curve) where
  sender_bench :
      {clock : Clock} (env : Environment ec) (test_number : ℕ) (st : Party clock)
      → kkrt_ot_bench c ec env 0 test_number st
        ≡ try_catch
            (timed case_kkrt_ot case_kkrt_ot (512 ∷ 1024 ∷ []) test_number (
              NaorPinkas.receive c ec
                (naor_pinkas_receiver ec 512 env.receiver_source)
                (base_choices_of env)
              >>= λ base.
                  repeat test_number
                    (λ (s : KkrtNcoOtExtSender c). Kkrt.send c s 1024)
                    tt
                    (Kkrt.sender_set_base_ots c (kkrt_sender c 512) (base_choices_of env) base.0)
                  >>= λ end. done []))
            st
  unfolding kkrt_ot_bench lifted and_then
  sender_bench env test_number st =
      rw
        (
          (factories_build c ec env.sender_source naor_pinkas_sender_scheme params).0,
          (factories_build c ec env.receiver_source naor_pinkas_receiver_scheme params).1,
          (factories_build c ec env.sender_source kkrt_sender_scheme params).4,
          (factories_build c ec env.sender_source kkrt_receiver_scheme params).5,
        )
        refl

  receiver_bench :
      {clock : Clock} (env : Environment ec) (test_number : ℕ) (st : Party clock)
      → kkrt_ot_bench c ec env 1 test_number st
        ≡ try_catch
            (timed case_kkrt_ot case_kkrt_ot (512 ∷ 1024 ∷ []) test_number (
              NaorPinkas.send c ec (naor_pinkas_sender ec 512 env.sender_source) >>= λ base.
              repeat test_number
                (λ (r : KkrtNcoOtExtReceiver c). Kkrt.receive c r ext_choices)
                []
                (Kkrt.receiver_set_base_ots c (kkrt_receiver c 512) base.0)
              >>= λ end. done end.0))
            st
  unfolding kkrt_ot_bench lifted and_then
  receiver_bench env test_number st =
      rw
        (
          (factories_build c ec env.sender_source naor_pinkas_sender_scheme params).0,
          (factories_build c ec env.receiver_source naor_pinkas_receiver_scheme params).1,
          (factories_build c ec env.sender_source kkrt_sender_scheme params).4,
          (factories_build c ec env.sender_source kkrt_receiver_scheme params).5,
        )
        refl

  -- The messages that the two parties end with, and the run to them.
  pub record KkrtOtMeasured (clock : Clock) (test_number : ℕ) (env0 env1 : Environment ec)
      : Type 0 where
    pub received : List Block
    pub run :
        (s t : Party clock) (i j : ℕ)
        → let i' = i + 512 * 33 in
          let j' = j + (2 * 512 * 33 + test_number * (1024 * 4 * 16)) in
          AlwaysEnds
            (4 + test_number * 2)
            (idle i j
              (kkrt_ot_bench c ec env0 0 test_number (counted s i j))
              (kkrt_ot_bench c ec env1 1 test_number (counted t j i)))
            (idle i' j'
              (done (
                returned (logged []),
                after case_kkrt_ot case_kkrt_ot (512 ∷ 1024 ∷ []) test_number s i' j',
              ))
              (done (
                returned (logged received),
                after case_kkrt_ot case_kkrt_ot (512 ∷ 1024 ∷ []) test_number t j' i',
              )))
    pub length_received : 0 < test_number → length received ≡ 1024

  -- Under the laws of the generators, the hash, the curve and the random bytes, when 33 bytes hold
  -- the points of party 0, the two parties of the benchmark, whatever bytes went before, end
  -- without an exception, have sent 512 * 33 bytes more, and 512 * 66 bytes and 1024 * 64 for each
  -- session, and unless there is no session, party 1 has 1024 messages. Both log their begin and
  -- their end, with two readings of the clock, their difference, and all the bytes that were sent
  -- and received so far. However the steps of the two parties are interleaved, and wherever the run
  -- stands, neither has failed, a step is possible unless both are done, and the steps that are
  -- left lead to the same end.
  pub kkrt_ot_bench_measures :
      (clock : Clock) (test_number : ℕ) (env0 env1 : Environment ec)
      (IsEncodable : ec.Point → Type 0)
      → IsCrypto c
      → IsCurve ec IsEncodable
      → IsEnvironment env0
      → Sendable ec (base_choices_of env0) IsEncodable 1 512 env1.sender_source env0.receiver_source
      → KkrtOtMeasured clock test_number env0 env1
  kkrt_ot_bench_measures clock test_number env0 env1 IsEncodable w wc e0 sendable =
      let base =
        base_phase c ec 512 (base_choices_of env0) env0 env1 IsEncodable wc (omega arith)
          sendable in
      let calls =
        sessions_repeat (λ (s : KkrtNcoOtExtSender c). Kkrt.send c s 1024)
          (λ (r : KkrtNcoOtExtReceiver c). Kkrt.receive c r ext_choices) (KkrtReady c 512)
          (λ s r (x : Unit {0}). Encodes c ext_choices s) 2 0 (1024 * 4 * 16) (kkrt_calls c w)
          test_number tt []
          (Kkrt.sender_set_base_ots c (kkrt_sender c 512) (base_choices_of env0) base.received)
          (Kkrt.receiver_set_base_ots c (kkrt_receiver c 512) base.sent)
          (kkrt_prepared c ec env0 env1 e0 base test_number) in
      record {
        received = calls.right_out;
        run = λ s t i j.
            let i' = i + 512 * 33 in
            let j' = j + (2 * 512 * 33 + test_number * (1024 * 4 * 16)) in
            run-AlwaysEnds (4 + test_number * 2) _ _ _ _ _ (
              rw
                (
                  sender_bench env0 test_number (counted s i j),
                  receiver_bench env1 test_number (counted t j i),
                )
                (timed-Steps case_kkrt_ot case_kkrt_ot (512 ∷ 1024 ∷ []) test_number
                  (4 + test_number * 2) i j i' j' _ _ [] calls.right_out s t
                  (run_later i j (4 + test_number * 2) (512 * 33)
                    (2 * 512 * 33 + test_number * (1024 * 4 * 16)) _ _ _ _
                    (phases c ec 512 (test_number * 2) (512 * 33)
                      (2 * 512 * 33 + test_number * (1024 * 4 * 16)) (base_choices_of env0) env0
                      env1 base _ _ [] calls.right_out
                      (retimed (test_number * 2) (test_number * 2) (512 * 33 + test_number * 0)
                        (512 * 33) _ _ _ _ _ refl (omega arith) refl
                        (run_then (λ (x : Unit {0} × KkrtNcoOtExtSender c). done [])
                          (λ (x : List Block × KkrtNcoOtExtReceiver c). done x.0) (test_number * 2)
                          (512 * 33) (2 * 512 * 33) (512 * 33 + test_number * 0)
                          (2 * 512 * 33 + test_number * (1024 * 4 * 16)) _ _
                          (calls.left_out, calls.left_after) (calls.right_out, calls.right_after)
                          (calls.run (512 * 33) (2 * 512 * 33))))))));
        length_received = λ lt. (calls.post lt).0 ∙ length-tabulate 1024 0 (set_epi64x 0);
      }
