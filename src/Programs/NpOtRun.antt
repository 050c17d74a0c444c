-- ===== src/Programs/NpOtRun.antt =====
-- A run of example/np_ot_example.cpp by party 0 and party 1.
use petace_verse.Common.{◌*◌, List, [], ◌∷◌, ◌≡◌, refl, arith}
use petace_verse.Util.Memory.{Block}
use petace_verse.Crypto.{Crypto}
use petace_verse.Curve.{Curve, IsCurve}
use petace_verse.Net.{done, lift, ◌>>=◌}
use petace_verse.Net.Run.{start, idle}
use petace_verse.Net.Schedules.{AlwaysEnds, run-AlwaysEnds}
use petace_verse.Net.Compose.{run_then}
use petace_verse.NaorPinkas as NaorPinkas
use petace_verse.NaorPinkas.{
  NaorPinkasSender, NaorPinkasReceiver, naor_pinkas_sender, naor_pinkas_receiver,
}
use petace_verse.Factory.{VerseParams, naor_pinkas_sender_scheme, naor_pinkas_receiver_scheme}
use petace_verse.Factory.Registrations.{factories_build}
use petace_verse.Sessions.Protocols.{Sendable, base-Session}
use petace_verse.Programs.{
  Environment, read_block_from_dev_urandom, Output, print_pairs, print_chosen,
}
use petace_verse.Programs.NpOtExample.{np_ot_example}
use petace_verse.Programs.Printed.{Agree, prints-Agree}

module _ (c : Crypto) (ec : Curve) where
  sender_program :
      (env : Environment ec)
      → np_ot_example c ec env 0 ≡ (
          NaorPinkas.send c ec (naor_pinkas_sender ec 128 env.sender_source) >>= λ r.
          lift (print_pairs 128 r.0))
  unfolding np_ot_example
  sender_program env =
      let params : VerseParams = record { base_ot_sizes = 128; ext_ot_sizes = 0 } in
      rw
        (
          (factories_build c ec env.sender_source naor_pinkas_sender_scheme params).0,
          (factories_build c ec env.receiver_source naor_pinkas_receiver_scheme params).1,
        )
        refl

  receiver_program :
      (env : Environment ec)
      → np_ot_example c ec env 1 ≡ (
          NaorPinkas.receive c ec
            (naor_pinkas_receiver ec 128 env.receiver_source)
            (read_block_from_dev_urandom env 0 ∷ [])
          >>= λ r. lift (print_chosen 128 r.0 (read_block_from_dev_urandom env 0 ∷ [])))
  unfolding np_ot_example
  receiver_program env =
      let params : VerseParams = record { base_ot_sizes = 128; ext_ot_sizes = 0 } in
      rw
        (
          (factories_build c ec env.sender_source naor_pinkas_sender_scheme params).0,
          (factories_build c ec env.receiver_source naor_pinkas_receiver_scheme params).1,
        )
        refl

  -- The printouts of party 0 and party 1, and the run to them.
  pub record NpOtPrinted (env0 env1 : Environment ec) : Type 0 where
    pub pairs : Output
    pub chosens : Output
    pub run :
        AlwaysEnds 4
          (start (np_ot_example c ec env0 0) (np_ot_example c ec env1 1))
          (idle (2 * 128 * 33) (128 * 33) (done pairs) (done chosens))
    pub agree : Agree 128 (read_block_from_dev_urandom env1 0 ∷ []) pairs chosens

  -- Under the laws of the curve, when 33 bytes hold the points of party 1, the two parties of the
  -- example run to the end of their programs in 4 steps, send 128 * 66 and 128 * 33 bytes, and
  -- print 128 lines each: every line of party 1 is its choice bit and the message at it of the line
  -- of party 0. However the steps of the two parties are interleaved, and wherever the run stands,
  -- neither has failed, a step is possible unless both are done, and the steps that are left lead
  -- to the same end.
  pub np_ot_example_prints :
      (env0 env1 : Environment ec) (IsEncodable : ec.Point → Type 0)
      → IsCurve ec IsEncodable
      → Sendable ec
          (read_block_from_dev_urandom env1 0 ∷ [])
          IsEncodable
          1
          128
          env0.sender_source
          env1.receiver_source
      → NpOtPrinted env0 env1
  unfolding naor_pinkas_sender naor_pinkas_receiver
  np_ot_example_prints env0 env1 IsEncodable w sendable =
      let choices = read_block_from_dev_urandom env1 0 ∷ [] in
      let base =
        base-Session ec choices IsEncodable c w 128 (omega arith) 0
          (naor_pinkas_sender ec 128 env0.sender_source)
          (naor_pinkas_receiver ec 128 env1.receiver_source) (refl, refl, sendable) in
      let out = prints-Agree 128 choices base.left_out base.right_out (omega arith) base.post in
      record {
        pairs = out.0;
        chosens = out.1;
        run = run-AlwaysEnds 4 _ _ _ _ _ (
            rw (sender_program env0, receiver_program env1)
              (rw (out.2, out.3) at
                (run_then
                  (λ (r : List (Block × Block) × NaorPinkasSender ec). lift (print_pairs 128 r.0))
                  (λ (r : List Block × NaorPinkasReceiver ec). lift (print_chosen 128 r.0 choices))
                  4 0 0 (2 * 128 * 33) (128 * 33) _ _ (base.left_out, base.left_after)
                  (base.right_out, base.right_after) (base.run 0 0))));
        agree = out.4;
      }
