-- ===== src/Programs/KkrtOtRun.antt =====
-- A run of example/kkrt_ot_example.cpp by party 0 and party 1.
use petace_verse.Common.{
  ℕ, suc, ◌+◌, ◌*◌, ◌<◌, List, [], ◌∷◌, ◌++◌, Outcome, ok, err, fault, length, get_or,
  get_or-tabulate, length-tabulate, ◌≡◌, refl, sym, ◌∙◌, ap, ap₂, arith,
}
use petace_verse.Util.Memory.{set_epi64x, Block}
use petace_verse.Crypto.{Crypto, IsCrypto}
use petace_verse.Curve.{Curve, IsCurve}
use petace_verse.Net.{done, lift, ◌>>=◌}
use petace_verse.Net.Run.{start, idle}
use petace_verse.Net.Schedules.{AlwaysEnds, run-AlwaysEnds}
use petace_verse.Net.Compose.{run_then}
use petace_verse.NaorPinkas as NaorPinkas
use petace_verse.NaorPinkas.{
  NaorPinkasSender, NaorPinkasReceiver, naor_pinkas_sender, naor_pinkas_receiver,
}
use petace_verse.Kkrt as Kkrt
use petace_verse.Kkrt.{KkrtNcoOtExtSender, KkrtNcoOtExtReceiver, kkrt_sender, kkrt_receiver}
use petace_verse.Factory.{
  naor_pinkas_sender_scheme, naor_pinkas_receiver_scheme, kkrt_sender_scheme, kkrt_receiver_scheme,
}
use petace_verse.Factory.Registrations.{factories_build}
use petace_verse.Sessions.Protocols.{Encodes, Sendable}
use petace_verse.Kkrt.Encode.{encode}
use petace_verse.Programs.Prints.{print_encoded, print_messages}
use petace_verse.Programs.Prints.Encoded.{print_encoded_lem, print_messages_lem}
use petace_verse.Programs.{low_half, high_half, Environment, IsEnvironment, Output}
use petace_verse.Programs.BasePhase.{base_phase, phases}
use petace_verse.Programs.KkrtPhase.{
  base_choices_of, ext_choices, params, kkrt_prepared, kkrt_calls,
}
use petace_verse.Programs.KkrtOtExample.{kkrt_ot_example}

-- 18 lines on the one side and 2 on the other for each of 16 transfers: line 2 * i + 1 of party 1 is
-- line 18 * i + 1 + i of party 0, followed by the choice i.
abbrev pub EncodedAgree : Output → Output → Type 0
EncodedAgree encoded messages =
    (length encoded ≡ 16 * 18)
    × (length messages ≡ 16 * 2)
    × ((i : ℕ)
        → i < 16
        → get_or messages (i * 2 + 1) [] ≡ get_or encoded (i * 18 + suc i) [] ++ i ∷ [])

ext_choice : (i : ℕ) → i < 16 → get_or ext_choices i 0 ≡ set_epi64x 0 i
ext_choice i lt =
    let z : 0 + i ≡ i = omega arith in
    get_or-tabulate 1024 0 i (set_epi64x 0) 0 (omega arith) ∙ ap (set_epi64x 0) z

low_half-set : (i : ℕ) → i < 16 → low_half (set_epi64x 0 i) ≡ i
unfolding set_epi64x
low_half-set i lt = omega arith

abbrev encoded_block : Outcome Block → Block
encoded_block (ok b) = b
encoded_block (err e) = 0
encoded_block fault = 0

-- The printouts of a sender and a receiver after a session.
encoded_agree :
    (c : Crypto) (s : KkrtNcoOtExtSender c) (messages : List Block)
    → Encodes c ext_choices s messages
    → (encoded chosens : Output) × (print_encoded (encode c s) ≡ ok encoded)
      × (print_messages messages ext_choices ≡ ok chosens)
      × EncodedAgree encoded chosens
encoded_agree c s messages h =
    let size : length ext_choices ≡ 1024 = length-tabulate 1024 0 (set_epi64x 0) in
    let encoded =
      print_encoded_lem (encode c s)
        (λ i j lt hj. (h.1 i (omega (arith, size))).1 (set_epi64x 0 j)) in
    let chosens =
      print_messages_lem messages ext_choices (omega (arith, size, h.0)) (omega (arith, size)) in
    (
      encoded.0,
      chosens.0,
      encoded.1,
      chosens.1,
      (
        encoded.2,
        chosens.2,
        λ i lt.
            let line = encoded.3 i i lt lt in
            let same : get_or messages i 0 ≡ line.0 = ap encoded_block (
              sym (h.1 i (omega (arith, size))).0 ∙ ap (encode c s i) (ext_choice i lt) ∙ line.1) in
            chosens.3 i lt
            ∙ ap₂ (λ (m b : Block). low_half m ∷ high_half m ∷ low_half b ∷ []) same
                (ext_choice i lt)
            ∙ ap (λ (b : ℕ). low_half line.0 ∷ high_half line.0 ∷ b ∷ []) (low_half-set i lt)
            ∙ ap (λ (l : List ℕ). l ++ i ∷ []) (sym line.2),
      ),
    )

module _ (c : Crypto) (ec : Curve) where
  sender_program :
      (env : Environment ec)
      → kkrt_ot_example c ec env 0 ≡ (
          NaorPinkas.receive c ec
            (naor_pinkas_receiver ec 512 env.receiver_source)
            (base_choices_of env)
          >>= λ base.
              Kkrt.send c
                (Kkrt.sender_set_base_ots c (kkrt_sender c 512) (base_choices_of env) base.0)
                1024
              >>= λ r. lift (print_encoded (encode c r.1)))
  unfolding kkrt_ot_example
  sender_program env =
      rw
        (
          (factories_build c ec env.sender_source naor_pinkas_sender_scheme params).0,
          (factories_build c ec env.receiver_source naor_pinkas_receiver_scheme params).1,
          (factories_build c ec env.sender_source kkrt_sender_scheme params).4,
          (factories_build c ec env.sender_source kkrt_receiver_scheme params).5,
        )
        refl

  receiver_program :
      (env : Environment ec)
      → kkrt_ot_example c ec env 1 ≡ (
          NaorPinkas.send c ec (naor_pinkas_sender ec 512 env.sender_source) >>= λ base.
          Kkrt.receive c (Kkrt.receiver_set_base_ots c (kkrt_receiver c 512) base.0) ext_choices
          >>= λ r. lift (print_messages r.0 ext_choices))
  unfolding kkrt_ot_example
  receiver_program env =
      rw
        (
          (factories_build c ec env.sender_source naor_pinkas_sender_scheme params).0,
          (factories_build c ec env.receiver_source naor_pinkas_receiver_scheme params).1,
          (factories_build c ec env.sender_source kkrt_sender_scheme params).4,
          (factories_build c ec env.sender_source kkrt_receiver_scheme params).5,
        )
        refl

  -- The printouts of party 0 and party 1, and the run to them.
  pub record KkrtOtPrinted (env0 env1 : Environment ec) : Type 0 where
    pub encoded : Output
    pub chosens : Output
    pub run :
        AlwaysEnds 6
          (start (kkrt_ot_example c ec env0 0) (kkrt_ot_example c ec env1 1))
          (idle (512 * 33) (2 * 512 * 33 + 1024 * 4 * 16) (done encoded) (done chosens))
    pub agree : EncodedAgree encoded chosens

  -- Under the laws of the generators, the hash, the curve and the random bytes, when 33 bytes hold
  -- the points of party 0, the two parties of the example run to the end of their programs in 6
  -- steps, send 512 * 33 and 512 * 66 + 1024 * 64 bytes, and print 16 transfers each: the message
  -- of transfer i in the printout of party 1 is the one that party 0 prints at the value i, which
  -- is the choice. However the steps of the two parties are interleaved, and wherever the run
  -- stands, neither has failed, a step is possible unless both are done, and the steps that are
  -- left lead to the same end.
  pub kkrt_ot_example_prints :
      (env0 env1 : Environment ec) (IsEncodable : ec.Point → Type 0)
      → IsCrypto c
      → IsCurve ec IsEncodable
      → IsEnvironment env0
      → Sendable ec (base_choices_of env0) IsEncodable 1 512 env1.sender_source env0.receiver_source
      → KkrtOtPrinted env0 env1
  kkrt_ot_example_prints env0 env1 IsEncodable w wc e0 sendable =
      let base =
        base_phase c ec 512 (base_choices_of env0) env0 env1 IsEncodable wc (omega arith)
          sendable in
      let call =
        kkrt_calls c w 0
          (Kkrt.sender_set_base_ots c (kkrt_sender c 512) (base_choices_of env0) base.received)
          (Kkrt.receiver_set_base_ots c (kkrt_receiver c 512) base.sent)
          (kkrt_prepared c ec env0 env1 e0 base 1) in
      let out = encoded_agree c call.left_after call.right_out call.post in
      record {
        encoded = out.0;
        chosens = out.1;
        run = run-AlwaysEnds 6 _ _ _ _ _ (
            rw (sender_program env0, receiver_program env1)
              (phases c ec 512 2 (512 * 33) (2 * 512 * 33 + 1024 * 4 * 16) (base_choices_of env0)
                env0 env1 base _ _ out.0 out.1
                (rw (out.2, out.3) at
                  (run_then
                    (λ (r : Unit {0} × KkrtNcoOtExtSender c). lift (print_encoded (encode c r.1)))
                    (λ (r : List Block × KkrtNcoOtExtReceiver c).
                      lift (print_messages r.0 ext_choices))
                    2 (512 * 33) (2 * 512 * 33) (512 * 33) (2 * 512 * 33 + 1024 * 4 * 16) _ _
                    (tt, call.left_after) (call.right_out, call.right_after)
                    (call.run (512 * 33) (2 * 512 * 33))))));
        agree = out.4;
      }
