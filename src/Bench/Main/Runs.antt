-- ===== src/Bench/Main/Runs.antt =====
-- A run of the program by party 0 and party 1, for every case.
use petace_verse.Common.{subst₂, ℕ, ◌+◌, ◌*◌, [], ◌∷◌, ok, Outcome, ◌≡◌}
use petace_verse.Crypto.{Crypto, IsCrypto}
use petace_verse.Curve.{Curve, IsCurve}
use petace_verse.Net.{done}
use petace_verse.Net.Run.{Steps, here, start, idle}
use petace_verse.Net.Schedules.{AlwaysEnds, run-AlwaysEnds}
use petace_verse.Net.Compose.{run_then}
use petace_verse.Sessions.Protocols.{Sendable}
use petace_verse.Programs.{IsEnvironment, read_block_from_dev_urandom}
use petace_verse.Programs.IknpPhase as Iknp
use petace_verse.Programs.KkrtPhase as Kkrt
use native.Mathlib.Nat.{zero-add}
use petace_verse.Bench.{
  Clock, Party, Bench, Result, Report, logged, returned, and_then, lifted, returns, case_np_ot,
  case_iknp_ot, case_kkrt_ot,
}
use petace_verse.Bench.Metered.{after, and_then-Steps, caught-Steps}
use petace_verse.Bench.Params.{NetParams, net_params, Meets, IsReachable}
use petace_verse.Bench.NpOt.{np_ot_bench, NpOtMeasured, np_ot_bench_measures}
use petace_verse.Bench.IknpOt.{iknp_ot_bench, IknpOtMeasured, iknp_ot_bench_measures}
use petace_verse.Bench.KkrtOt.{kkrt_ot_bench, KkrtOtMeasured, kkrt_ot_bench_measures}
use petace_verse.Bench.Main.{
  TestCase, np_ot, iknp_ot, kkrt_ot, all, other, new_party, exit_code, Arguments, Environments,
  run_case, bench_main,
}
use petace_verse.Bench.Main.All.{
  all_cases, left_np, right_np, left_bytes, right_bytes, left_party, right_party,
}

-- The steps of both parties together for `n` calls of the methods of a case.
abbrev pub steps_of : TestCase → ℕ → ℕ
steps_of np_ot n = n * 4
steps_of iknp_ot n = 4 + n * 2
steps_of kkrt_ot n = 4 + n * 2
steps_of all n = n * 4 + ((4 + n * 2) + (4 + n * 2))
steps_of other n = 0

-- The bytes that party 0 and party 1 send.
abbrev pub left_sends_of : TestCase → ℕ → ℕ
left_sends_of np_ot n = left_np n
left_sends_of iknp_ot n = 128 * 33
left_sends_of kkrt_ot n = 512 * 33
left_sends_of all n = left_bytes n
left_sends_of other n = 0

abbrev pub right_sends_of : TestCase → ℕ → ℕ
right_sends_of np_ot n = right_np n
right_sends_of iknp_ot n = 2 * 128 * 33 + n * (1024 * 16)
right_sends_of kkrt_ot n = 2 * 512 * 33 + n * (1024 * 4 * 16)
right_sends_of all n = right_bytes n
right_sends_of other n = 0

module _ {clock : Clock} where
  -- A party after the one benchmark of a case: its log has two lines. The end of the IKNP benchmark
  -- is logged as the case np_ot.
  abbrev pub np_ot_end : (ℕ → clock.Time) → ℕ → ℕ → ℕ → Party clock
  np_ot_end reading n sent received =
      after case_np_ot case_np_ot (128 ∷ []) n (new_party clock reading) sent received

  abbrev pub iknp_ot_end : (ℕ → clock.Time) → ℕ → ℕ → ℕ → Party clock
  iknp_ot_end reading n sent received =
      after case_iknp_ot case_np_ot (128 ∷ 1024 ∷ []) n (new_party clock reading) sent received

  abbrev pub kkrt_ot_end : (ℕ → clock.Time) → ℕ → ℕ → ℕ → Party clock
  kkrt_ot_end reading n sent received =
      after case_kkrt_ot case_kkrt_ot (512 ∷ 1024 ∷ []) n (new_party clock reading) sent received

  -- The parties at their ends; where the case is none of the four, nothing has happened.
  abbrev pub left_end : (ℕ → clock.Time) → TestCase → ℕ → Party clock
  left_end reading np_ot n = np_ot_end reading n (left_np n) (right_np n)
  left_end reading iknp_ot n =
      iknp_ot_end reading n (left_sends_of iknp_ot n) (right_sends_of iknp_ot n)
  left_end reading kkrt_ot n =
      kkrt_ot_end reading n (left_sends_of kkrt_ot n) (right_sends_of kkrt_ot n)
  left_end reading all n = left_party reading n
  left_end reading other n = new_party clock reading

  abbrev pub right_end : (ℕ → clock.Time) → TestCase → ℕ → Party clock
  right_end reading np_ot n = np_ot_end reading n (right_np n) (left_np n)
  right_end reading iknp_ot n =
      iknp_ot_end reading n (right_sends_of iknp_ot n) (left_sends_of iknp_ot n)
  right_end reading kkrt_ot n =
      kkrt_ot_end reading n (right_sends_of kkrt_ot n) (left_sends_of kkrt_ot n)
  right_end reading all n = right_party reading n
  right_end reading other n = new_party clock reading

-- One benchmark on both sides that ends by its log.
one_logged :
    {A B : Type 0} {clock : Clock} (k l r : ℕ) (first : Party clock → ℕ → ℕ → Party clock)
    (f : Bench clock (Report A)) (g : Bench clock (Report B)) (a : A) (b : B) (s t : Party clock)
    → Steps k (start (f s) (g t)) (
        idle
          (0 + l)
          (0 + r)
          (done (returned (logged a), first s (0 + l) (0 + r)))
          (done (returned (logged b), first t (0 + r) (0 + l))))
    → Steps k
        (start
          (and_then (f s) (λ x. returns {clock = clock} tt))
          (and_then (g t) (λ x. returns {clock = clock} tt)))
        (idle l r (done (returned (tt {0}), first s l r)) (done (returned (tt {0}), first t r l)))
one_logged {A} {B} {clock} k l r first f g a b s t run =
    and_then-Steps k 0 0 l r (f s) (g t) (logged a) (logged b) (first s l r) (first t r l)
      (λ x. returns {clock = clock} tt) (λ x. returns {clock = clock} tt)
      (subst₂
        (λ l' r'. Steps k (start (f s) (g t)) (
          idle l' r' (done (returned (logged a), first s l' r'))
            (done (returned (logged b), first t r' l'))))
        (zero-add l) (zero-add r) run)

module _ (c : Crypto) (ec : Curve) (clock : Clock) where
  case_Steps :
      (case : TestCase) (n : ℕ) (reading0 reading1 : ℕ → clock.Time) (env0 env1 : Environments ec)
      → NpOtMeasured c ec clock n env0.np env1.np
      → IknpOtMeasured c ec clock n env0.iknp env1.iknp
      → KkrtOtMeasured c ec clock n env0.kkrt env1.kkrt
      → Steps
          (steps_of case n)
          (start
            (run_case c ec env0 case 0 n (new_party clock reading0))
            (run_case c ec env1 case 1 n (new_party clock reading1)))
          (idle
            (left_sends_of case n)
            (right_sends_of case n)
            (done (returned tt, left_end reading0 case n))
            (done (returned tt, right_end reading1 case n)))
  unfolding run_case new_party
  case_Steps np_ot n reading0 reading1 env0 env1 np iknp kkrt =
      one_logged (n * 4) (left_np n) (right_np n) (after case_np_ot case_np_ot (128 ∷ []) n)
        (np_ot_bench c ec env0.np 0 n) (np_ot_bench c ec env1.np 1 n) np.left_messages
        np.right_messages (new_party clock reading0) (new_party clock reading1)
        ((np.run (new_party clock reading0) (new_party clock reading1) 0 0).0)
  case_Steps iknp_ot n reading0 reading1 env0 env1 np iknp kkrt =
      one_logged (4 + n * 2) (128 * 33) (2 * 128 * 33 + n * (1024 * 16))
        (after case_iknp_ot case_np_ot (128 ∷ 1024 ∷ []) n) (iknp_ot_bench c ec env0.iknp 0 n)
        (iknp_ot_bench c ec env1.iknp 1 n) (iknp.sent, []) ([], iknp.received)
        (new_party clock reading0) (new_party clock reading1)
        ((iknp.run (new_party clock reading0) (new_party clock reading1) 0 0).0)
  case_Steps kkrt_ot n reading0 reading1 env0 env1 np iknp kkrt =
      one_logged (4 + n * 2) (512 * 33) (2 * 512 * 33 + n * (1024 * 4 * 16))
        (after case_kkrt_ot case_kkrt_ot (512 ∷ 1024 ∷ []) n) (kkrt_ot_bench c ec env0.kkrt 0 n)
        (kkrt_ot_bench c ec env1.kkrt 1 n) [] kkrt.received (new_party clock reading0)
        (new_party clock reading1)
        ((kkrt.run (new_party clock reading0) (new_party clock reading1) 0 0).0)
  case_Steps all n reading0 reading1 env0 env1 np iknp kkrt =
      all_cases c ec clock n reading0 reading1 env0 env1 np iknp kkrt
  case_Steps other n reading0 reading1 env0 env1 np iknp kkrt = here

module _ (c : Crypto) (ec : Curve) (IsEncodable : ec.Point → Type 0) (clock : Clock) where
  -- Under the laws of the generators, the hash, the curve and the random bytes, when the command
  -- lines of party 0 and party 1 say the same case, the same number of calls, and hosts and ports
  -- that are not refused and name each other's host and port, the network opens a connection for
  -- such parameters, and 33 bytes hold the points of the receivers, both programs return 0 and no
  -- benchmark prints an exception. For the case of one benchmark, the parties send its bytes, and
  -- the log of each has two lines: the begin and the end of the benchmark, with the readings of
  -- the party's own clock and the bytes sent and received. For the case "all", they send the bytes
  -- of the three benchmarks together, and the logs have six lines: those of each benchmark in
  -- turn, with the bytes up to there. For any other case nothing is sent and the logs are empty.
  -- However the steps of the two programs are interleaved, and wherever the run stands, neither
  -- has failed, a step is possible unless both are done, and the steps that are left lead to the
  -- same end.
  pub bench_main_runs :
      {Host : Type 0} (localhost host0 host1 : Host)
      (build0 build1 : NetParams Host → Outcome (Unit {0})) (reading0 reading1 : ℕ → clock.Time)
      (env0 env1 : Environments ec) (args0 args1 : Arguments Host)
      (params0 params1 : NetParams Host)
      → IsCrypto c
      → IsCurve ec IsEncodable
      → IsEnvironment env0.iknp
      → IsEnvironment env1.iknp
      → IsEnvironment env0.kkrt
      → (args0.party ≡ 0) × (args1.party ≡ 1)
      → args1.test_case ≡ args0.test_case
      → args1.test_number ≡ args0.test_number
      → net_params localhost 0 args0.hosts args0.ports ≡ ok params0
      → net_params localhost 1 args1.hosts args1.ports ≡ ok params1
      → IsReachable host0 host1 build0 build1
      → Meets host0 host1 params0 params1
      → Sendable ec
          (read_block_from_dev_urandom env1.np 0 ∷ [])
          IsEncodable
          args0.test_number
          128
          env0.np.sender_source
          env1.np.receiver_source
      → Sendable ec
          (Iknp.base_choices_of env0.iknp)
          IsEncodable
          1
          128
          env1.iknp.sender_source
          env0.iknp.receiver_source
      → Sendable ec
          (Kkrt.base_choices_of env0.kkrt)
          IsEncodable
          1
          512
          env1.kkrt.sender_source
          env0.kkrt.receiver_source
      → let n = args0.test_number in
        let case = args0.test_case in
        AlwaysEnds
          (steps_of case n)
          (start
            (bench_main c ec {clock = clock} localhost build0 reading0 env0 args0)
            (bench_main c ec {clock = clock} localhost build1 reading1 env1 args1))
          (idle
            (left_sends_of case n)
            (right_sends_of case n)
            (done (0, left_end reading0 case n))
            (done (0, right_end reading1 case n)))
  unfolding bench_main lifted and_then
  bench_main_runs localhost host0 host1 build0 build1 reading0 reading1 env0 env1 args0 args1
        params0 params1 w wc e0 e1 ek party same number p0 p1 reach meets np iknp kkrt =
      let n = args0.test_number in
      let case = args0.test_case in
      let fresh0 : Party clock = new_party clock reading0 in
      let fresh1 : Party clock = new_party clock reading1 in
      let opened = reach params0 params1 meets in
      let run =
        run_then (λ (r : Result (Report (Unit {0})) × Party clock). done (exit_code r.0, r.1))
          (λ (r : Result (Report (Unit {0})) × Party clock). done (exit_code r.0, r.1))
          (steps_of case n) 0 0 (left_sends_of case n) (right_sends_of case n) _ _
          (returned (logged tt), left_end reading0 case n)
          (returned (logged tt), right_end reading1 case n)
          (caught-Steps (steps_of case n) 0 0 (left_sends_of case n) (right_sends_of case n) _ _ tt
            tt fresh0 fresh1 (left_end reading0 case n) (right_end reading1 case n)
            (case_Steps c ec clock case n reading0 reading1 env0 env1
              (np_ot_bench_measures c ec clock n env0.np env1.np IsEncodable wc np)
              (iknp_ot_bench_measures c ec clock n env0.iknp env1.iknp IsEncodable w wc e0 e1 iknp)
              (kkrt_ot_bench_measures c ec clock n env0.kkrt env1.kkrt IsEncodable w wc ek
                kkrt))) in
      rw (party.0, party.1, same, number, p0, p1, opened.0, opened.1)
        (run-AlwaysEnds (steps_of case n) _ _ _ _ _ run)
