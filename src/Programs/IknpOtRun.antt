-- ===== src/Programs/IknpOtRun.antt =====
-- A run of example/iknp_ot_example.cpp by party 0 and party 1.
use petace_verse.Common.{◌+◌, ◌*◌, ◌/◌, List, length-tabulate, ◌≡◌, refl, arith}
use petace_verse.Util.Memory.{Block}
use petace_verse.Crypto.{Crypto, IsCrypto}
use petace_verse.Curve.{Curve, IsCurve}
use petace_verse.Net.{done, lift, ◌>>=◌}
use petace_verse.Net.Run.{start, idle}
use petace_verse.Net.Schedules.{AlwaysEnds, run-AlwaysEnds}
use petace_verse.Net.Compose.{run_then}
use petace_verse.NaorPinkas as NaorPinkas
use petace_verse.NaorPinkas.{
  NaorPinkasSender, NaorPinkasReceiver, naor_pinkas_sender, naor_pinkas_receiver,
}
use petace_verse.Iknp as Iknp
use petace_verse.Iknp.{IknpOtExtSender, IknpOtExtReceiver, iknp_sender, iknp_receiver}
use petace_verse.Factory.{
  naor_pinkas_sender_scheme, naor_pinkas_receiver_scheme, iknp_sender_scheme, iknp_receiver_scheme,
}
use petace_verse.Factory.Registrations.{factories_build}
use petace_verse.Sessions.Protocols.{Sendable}
use petace_verse.Programs.{
  Environment, IsEnvironment, read_block_from_dev_urandom, Output, print_pairs, print_chosen,
}
use petace_verse.Programs.BasePhase.{base_phase, phases}
use petace_verse.Programs.IknpPhase.{
  base_choices_of, ext_choices_of, params, iknp_prepared, iknp_calls,
}
use petace_verse.Programs.IknpOtExample.{iknp_ot_example}
use petace_verse.Programs.Printed.{Agree, prints-Agree}

module _ (c : Crypto) (ec : Curve) where
  sender_program :
      (env : Environment ec)
      → iknp_ot_example c ec env 0 ≡ (
          NaorPinkas.receive c ec
            (naor_pinkas_receiver ec 128 env.receiver_source)
            (base_choices_of env)
          >>= λ base.
              Iknp.send c
                (Iknp.sender_set_base_ots c (iknp_sender c 128 1024) (base_choices_of env) base.0)
              >>= λ r. lift (print_pairs 1024 r.0))
  unfolding iknp_ot_example
  sender_program env =
      rw
        (
          (factories_build c ec env.sender_source naor_pinkas_sender_scheme params).0,
          (factories_build c ec env.receiver_source naor_pinkas_receiver_scheme params).1,
          (factories_build c ec env.sender_source iknp_sender_scheme params).2,
          (factories_build c ec env.sender_source iknp_receiver_scheme params).3,
        )
        refl

  receiver_program :
      (env : Environment ec)
      → iknp_ot_example c ec env 1 ≡ (
          NaorPinkas.send c ec (naor_pinkas_sender ec 128 env.sender_source) >>= λ base.
          Iknp.receive c
            (Iknp.receiver_set_base_ots c (iknp_receiver c 128 1024) base.0)
            (ext_choices_of env)
          >>= λ r. lift (print_chosen 1024 r.0 (ext_choices_of env)))
  unfolding iknp_ot_example
  receiver_program env =
      rw
        (
          (factories_build c ec env.sender_source naor_pinkas_sender_scheme params).0,
          (factories_build c ec env.receiver_source naor_pinkas_receiver_scheme params).1,
          (factories_build c ec env.sender_source iknp_sender_scheme params).2,
          (factories_build c ec env.sender_source iknp_receiver_scheme params).3,
        )
        refl

  -- The printouts of party 0 and party 1, and the run to them.
  pub record IknpOtPrinted (env0 env1 : Environment ec) : Type 0 where
    pub pairs : Output
    pub chosens : Output
    pub run :
        AlwaysEnds 6
          (start (iknp_ot_example c ec env0 0) (iknp_ot_example c ec env1 1))
          (idle (128 * 33) (2 * 128 * 33 + 1024 * 16) (done pairs) (done chosens))
    pub agree : Agree 1024 (ext_choices_of env1) pairs chosens

  -- Under the laws of the generators, the hash, the curve and the random bytes, when 33 bytes hold
  -- the points of party 0, the two parties of the example run to the end of their programs in 6
  -- steps, send 128 * 33 and 128 * 66 + 1024 * 16 bytes, and print 1024 lines each: every line of
  -- party 1 is its choice bit and the message at it of the line of party 0. However the steps of
  -- the two parties are interleaved, and wherever the run stands, neither has failed, a step is
  -- possible unless both are done, and the steps that are left lead to the same end.
  pub iknp_ot_example_prints :
      (env0 env1 : Environment ec) (IsEncodable : ec.Point → Type 0)
      → IsCrypto c
      → IsCurve ec IsEncodable
      → IsEnvironment env0
      → IsEnvironment env1
      → Sendable ec (base_choices_of env0) IsEncodable 1 128 env1.sender_source env0.receiver_source
      → IknpOtPrinted env0 env1
  iknp_ot_example_prints env0 env1 IsEncodable w wc e0 e1 sendable =
      let base =
        base_phase c ec 128 (base_choices_of env0) env0 env1 IsEncodable wc (omega arith)
          sendable in
      let call =
        iknp_calls c ec env1 w e1 0
          (Iknp.sender_set_base_ots c (iknp_sender c 128 1024) (base_choices_of env0) base.received)
          (Iknp.receiver_set_base_ots c (iknp_receiver c 128 1024) base.sent)
          (iknp_prepared c ec env0 env1 e0 base 1) in
      let out =
        prints-Agree 1024 (ext_choices_of env1) call.left_out call.right_out
          (omega (arith, length-tabulate (1024 / 16) 1 (read_block_from_dev_urandom env1)))
          call.post in
      record {
        pairs = out.0;
        chosens = out.1;
        run = run-AlwaysEnds 6 _ _ _ _ _ (
            rw (sender_program env0, receiver_program env1)
              (phases c ec 128 2 (128 * 33) (2 * 128 * 33 + 1024 * 16) (base_choices_of env0) env0
                env1 base _ _ out.0 out.1
                (rw (out.2, out.3) at
                  (run_then
                    (λ (r : List (Block × Block) × IknpOtExtSender c). lift (print_pairs 1024 r.0))
                    (λ (r : List Block × IknpOtExtReceiver c).
                      lift (print_chosen 1024 r.0 (ext_choices_of env1)))
                    2 (128 * 33) (2 * 128 * 33) (128 * 33) (2 * 128 * 33 + 1024 * 16) _ _
                    (call.left_out, call.left_after) (call.right_out, call.right_after)
                    (call.run (128 * 33) (2 * 128 * 33))))));
        agree = out.4;
      }
