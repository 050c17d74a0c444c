-- ===== src/Bench/Main.antt =====
-- `main` of bench/bench.cpp after the command line is parsed: the network parameters of a party,
-- and the benchmarks of a case.
pub mod All
pub mod Runs
pub mod Refused
use petace_verse.Common.{ℕ, List, [], ◌∷◌, Option, none, some, Error, Outcome}
use petace_verse.Crypto.{Crypto}
use petace_verse.Curve.{Curve}
use petace_verse.Net.{Proc, done, ◌>>=◌}
use petace_verse.Programs.{Environment}
use petace_verse.Bench.{
  Clock, Party, Bench, Result, Report, logged, printed, returned, threw, ◌>>>◌, returns, lifted,
  try_catch,
}
use petace_verse.Bench.Params.{NetParams, net_params}
use petace_verse.Bench.NpOt.{np_ot_bench}
use petace_verse.Bench.IknpOt.{iknp_ot_bench}
use petace_verse.Bench.KkrtOt.{kkrt_ot_bench}

-- The values of `test_case` that `main` tells apart.
pub data TestCase : Type 0 where
  np_ot : TestCase
  iknp_ot : TestCase
  kkrt_ot : TestCase
  all : TestCase
  other : TestCase

-- The command line, as it is parsed.
module _ (Host : Type 0) where
  pub record Arguments : Type 0 where
    pub party : ℕ
    pub test_case : TestCase
    pub test_number : ℕ
    pub hosts : List Host
    pub ports : List ℕ

-- The randomness that each of the benchmarks draws.
pub record Environments (ec : Curve) : Type 0 where
  pub np : Environment ec
  pub iknp : Environment ec
  pub kkrt : Environment ec

-- A party whose program starts: its clock is unread and the file of its log is empty.
unfoldable pub new_party : (clock : Clock) → (ℕ → clock.Time) → Party clock
new_party clock reading = record {
  reading = reading;
  readings = 0;
  bytes_sent = 0;
  bytes_received = 0;
  log_file = [];
  errors = [];
}

-- `main` returns 0 when its end is reached, and 1 when it prints an exception.
abbrev pub exit_code : Result (Report (Unit {0})) → ℕ
exit_code (returned (logged a)) = 0
exit_code (returned (printed e)) = 1
exit_code (threw e) = 1

module _ (c : Crypto) (ec : Curve) {clock : Clock} where
  -- The benchmarks of a case, one after the other over one connection.
  unfoldable pub run_case : Environments ec → TestCase → ℕ → ℕ → Bench clock (Unit {0})
  run_case env np_ot party n = np_ot_bench c ec env.np party n >>> λ a. returns tt
  run_case env iknp_ot party n = iknp_ot_bench c ec env.iknp party n >>> λ a. returns tt
  run_case env kkrt_ot party n = kkrt_ot_bench c ec env.kkrt party n >>> λ a. returns tt
  run_case env all party n = np_ot_bench c ec env.np party n >>> λ a.
      iknp_ot_bench c ec env.iknp party n >>> λ b.
      kkrt_ot_bench c ec env.kkrt party n >>> λ k. returns tt
  run_case env other party n = returns tt

  -- The exit code, and the party at the end. `build` is `NetFactory::build` for a socket: it opens
  -- the connection that the parameters name, over which the party then sends and receives, or
  -- throws.
  unfoldable pub bench_main :
      {Host : Type 0}
      → Host
      → (NetParams Host → Outcome (Unit {0}))
      → (ℕ → clock.Time)
      → Environments ec
      → Arguments Host
      → Proc (ℕ × Party clock)
  bench_main localhost build reading env args =
      try_catch
        (lifted (net_params localhost args.party args.hosts args.ports) >>> λ params.
          lifted (build params) >>> λ net. run_case env args.test_case args.party args.test_number)
        (new_party clock reading)
      >>= λ r. done (exit_code r.0, r.1)
