-- ===== src/Bench/Main/All.antt =====
-- The three benchmarks of the case "all", run by party 0 and party 1.
use petace_verse.Common.{subst₂, ℕ, ◌+◌, ◌*◌, [], ◌∷◌, refl, ◌++◌, arith}
use petace_verse.Crypto.{Crypto}
use petace_verse.Curve.{Curve}
use petace_verse.Net.{Proc, done}
use petace_verse.Net.Run.{Config, Steps, here, start, idle}
use petace_verse.Net.Compose.{retimed, Steps-trans}
use native.Mathlib.Nat.{zero-add}
use petace_verse.Bench.{
  Clock, Party, Bench, Result, Report, logged, returned, and_then, case_np_ot, case_iknp_ot,
  case_kkrt_ot,
}
use petace_verse.Bench.Metered.{after, log_lines, and_then-Steps}
use petace_verse.Bench.NpOt.{NpOtMeasured, np_ot_bench}
use petace_verse.Bench.IknpOt.{IknpOtMeasured}
use petace_verse.Bench.KkrtOt.{KkrtOtMeasured}
use petace_verse.Bench.Main.{new_party, all, Environments, run_case}

-- Two benchmarks that both end by their log, and then on.
then_logged :
    {A B C D : Type 0} {clock : Clock} (n m i j i' j' : ℕ)
    (p : Proc (Result (Report A) × Party clock)) (q : Proc (Result (Report B) × Party clock))
    (a : A) (b : B) (s t : Party clock) (f : Report A → Bench clock C)
    (g : Report B → Bench clock D) (e : Config (Result C × Party clock) (Result D × Party clock))
    → Steps n
        (idle i j p q)
        (idle i' j' (done (returned (logged a), s)) (done (returned (logged b), t)))
    → Steps m (idle i' j' (f (logged a) s) (g (logged b) t)) e
    → Steps (n + m) (idle i j (and_then p f) (and_then q g)) e
then_logged n m i j i' j' p q a b s t f g e run rest =
    Steps-trans (and_then-Steps n i j i' j' p q (logged a) (logged b) s t f g run) rest

-- The bytes that the two parties have sent after the first, the second and the last benchmark.
abbrev pub left_np : ℕ → ℕ
left_np n = n * (2 * 128 * 33)

abbrev pub right_np : ℕ → ℕ
right_np n = n * (128 * 33)

abbrev pub left_iknp : ℕ → ℕ
left_iknp n = left_np n + 128 * 33

abbrev pub right_iknp : ℕ → ℕ
right_iknp n = right_np n + (2 * 128 * 33 + n * (1024 * 16))

abbrev pub left_bytes : ℕ → ℕ
left_bytes n = left_iknp n + 512 * 33

abbrev pub right_bytes : ℕ → ℕ
right_bytes n = right_iknp n + (2 * 512 * 33 + n * (1024 * 4 * 16))

-- A party after all three benchmarks: it has read its clock six times and printed nothing, and its
-- log has six lines.
abbrev pub all_logged : {clock : Clock} → (ℕ → clock.Time) → ℕ → ℕ → ℕ → ℕ → ℕ → ℕ → ℕ → Party clock
all_logged {clock} reading n sent1 received1 sent2 received2 sent3 received3 = record {
  reading = reading;
  readings = 6;
  bytes_sent = sent3;
  bytes_received = received3;
  log_file =
      log_lines case_np_ot case_np_ot (128 ∷ []) n reading 0 sent1 received1
      ++ (log_lines case_iknp_ot case_np_ot (128 ∷ 1024 ∷ []) n reading 2 sent2 received2
          ++ log_lines case_kkrt_ot case_kkrt_ot (512 ∷ 1024 ∷ []) n reading 4 sent3 received3);
  errors = [];
}

abbrev pub left_party : {clock : Clock} → (ℕ → clock.Time) → ℕ → Party clock
left_party reading n =
    all_logged reading n (left_np n) (right_np n) (left_iknp n) (right_iknp n) (left_bytes n)
      (right_bytes n)

abbrev pub right_party : {clock : Clock} → (ℕ → clock.Time) → ℕ → Party clock
right_party reading n =
    all_logged reading n (right_np n) (left_np n) (right_iknp n) (left_iknp n) (right_bytes n)
      (left_bytes n)

module _ (c : Crypto) (ec : Curve) (clock : Clock) where
  pub all_cases :
      (n : ℕ) (reading0 reading1 : ℕ → clock.Time) (env0 env1 : Environments ec)
      → NpOtMeasured c ec clock n env0.np env1.np
      → IknpOtMeasured c ec clock n env0.iknp env1.iknp
      → KkrtOtMeasured c ec clock n env0.kkrt env1.kkrt
      → Steps
          (n * 4 + ((4 + n * 2) + (4 + n * 2)))
          (start
            (run_case c ec env0 all 0 n (new_party clock reading0))
            (run_case c ec env1 all 1 n (new_party clock reading1)))
          (idle
            (left_bytes n)
            (right_bytes n)
            (done (returned tt, left_party reading0 n))
            (done (returned tt, right_party reading1 n)))
  unfolding run_case new_party
  all_cases n reading0 reading1 env0 env1 np iknp kkrt =
      let first : (s : Party clock) → ℕ → ℕ → Party clock =
        after case_np_ot case_np_ot (128 ∷ []) n in
      let second : (s : Party clock) → ℕ → ℕ → Party clock =
        after case_iknp_ot case_np_ot (128 ∷ 1024 ∷ []) n in
      let fresh0 : Party clock = new_party clock reading0 in
      let fresh1 : Party clock = new_party clock reading1 in
      let s1 : Party clock = first fresh0 (left_np n) (right_np n) in
      let t1 : Party clock = first fresh1 (right_np n) (left_np n) in
      let s2 : Party clock = second s1 (left_iknp n) (right_iknp n) in
      let t2 : Party clock = second t1 (right_iknp n) (left_iknp n) in
      let run_np =
        subst₂
          (λ l r.
            Steps (n * 4)
              (start (np_ot_bench c ec env0.np 0 n fresh0) (np_ot_bench c ec env1.np 1 n fresh1))
              (idle l r (done (returned (logged np.left_messages), first fresh0 l r))
                (done (returned (logged np.right_messages), first fresh1 r l))))
          (zero-add (left_np n)) (zero-add (right_np n)) ((np.run fresh0 fresh1 0 0).0) in
      retimed (n * 4 + ((4 + n * 2) + ((4 + n * 2) + 0))) (n * 4 + ((4 + n * 2) + (4 + n * 2)))
        (left_bytes n) (left_bytes n) (right_bytes n) (right_bytes n) _ _ _ (omega arith) refl refl
        (then_logged (n * 4) ((4 + n * 2) + ((4 + n * 2) + 0)) 0 0 (left_np n) (right_np n) _ _
          np.left_messages np.right_messages s1 t1 _ _ _ run_np
          (then_logged (4 + n * 2) ((4 + n * 2) + 0) (left_np n) (right_np n) (left_iknp n)
            (right_iknp n) _ _ (iknp.sent, []) ([], iknp.received) s2 t2 _ _ _
            ((iknp.run s1 t1 (left_np n) (right_np n)).0)
            (then_logged (4 + n * 2) 0 (left_iknp n) (right_iknp n) (left_bytes n) (right_bytes n) _
              _ [] kkrt.received _ _ _ _ _ ((kkrt.run s2 t2 (left_iknp n) (right_iknp n)).0) here)))
