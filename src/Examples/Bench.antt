-- ===== src/Examples/Bench.antt =====
-- Witnesses of the theorems on the benchmarks.
use petace_verse.Common.{
  ◌-◌, ℕ, ◌+◌, ◌*◌, [], ◌∷◌, ◌≡◌, inl, Error, no_connection, Outcome, ok, err, ◌==◌, if◌then◌else◌,
  eq→==, true, refl, load, arith,
}
use petace_verse.Net.{done}
use petace_verse.Net.Run.{start, idle}
use petace_verse.Net.Schedules.{AlwaysEnds}
use petace_verse.Bench.{Clock}
use petace_verse.Bench.Params.{NetParams, net_params, Meets, IsReachable, Crossed, ports_cross}
use petace_verse.Bench.NpOt.{NpOtMeasured, np_ot_bench_measures}
use petace_verse.Bench.IknpOt.{IknpOtMeasured, iknp_ot_bench_measures}
use petace_verse.Bench.KkrtOt.{KkrtOtMeasured, kkrt_ot_bench_measures}
use petace_verse.Bench.Main.{new_party, Arguments, Environments, all, bench_main, np_ot}
use petace_verse.Bench.Main.All.{left_bytes, right_bytes, left_party, right_party}
use petace_verse.Bench.Main.Runs.{bench_main_runs}
use petace_verse.Bench.Main.Refused.{bench_main_refuses}
use petace_verse.Examples.Toy.{toy, toy-IsCrypto}
use petace_verse.Examples.NaorPinkas.{pair_group, AnyPoint, pair_group-IsCurve, any_points}
use petace_verse.Examples.Programs.{env0, env1, env0-IsEnvironment, env1-IsEnvironment}

-- A clock that shows how often it was read before.
abbrev ticks : Clock
ticks = record { Time = ℕ; minus = λ a b. a - b }

np_ot_bench_measures_example : NpOtMeasured toy pair_group ticks 2 env0 env1
np_ot_bench_measures_example =
    np_ot_bench_measures toy pair_group ticks 2 env0 env1 AnyPoint pair_group-IsCurve
      (λ sigma e. any_points sigma, (λ sigma e. any_points sigma, tt))

iknp_ot_bench_measures_example : IknpOtMeasured toy pair_group ticks 10 env0 env1
iknp_ot_bench_measures_example =
    iknp_ot_bench_measures toy pair_group ticks 10 env0 env1 AnyPoint toy-IsCrypto
      pair_group-IsCurve env0-IsEnvironment env1-IsEnvironment (λ sigma e. any_points sigma, tt)

kkrt_ot_bench_measures_example : KkrtOtMeasured toy pair_group ticks 10 env0 env1
kkrt_ot_bench_measures_example =
    kkrt_ot_bench_measures toy pair_group ticks 10 env0 env1 AnyPoint toy-IsCrypto
      pair_group-IsCurve env0-IsEnvironment (λ sigma e. any_points sigma, tt)

-- Hosts are numbers here, and 127 is the local one.
abbrev localhost : ℕ
localhost = 127

ports_cross_example : Crossed localhost (10 ∷ 20 ∷ []) [] 1
ports_cross_example =
    ports_cross localhost (10 ∷ 20 ∷ []) [] 1 (λ e. absurd (omega arith)) refl refl

abbrev envs0 : Environments pair_group
envs0 = record { np = env0; iknp = env0; kkrt = env0 }

abbrev envs1 : Environments pair_group
envs1 = record { np = env1; iknp = env1; kkrt = env1 }

abbrev args : ℕ → Arguments ℕ
args p = record { party = p; test_case = all; test_number = 1; hosts = []; ports = [] }

-- The readings of the clocks of the two parties.
abbrev ticks_from : ℕ → ℕ → ℕ
ticks_from start_time n = start_time + n

-- A network with one other host: a connection to any other address cannot be opened.
abbrev socket : ℕ → NetParams ℕ → Outcome (Unit {0})
socket peer net_params = if net_params.remote_addr == peer then ok tt else err no_connection

reachable : (a b : ℕ) → IsReachable a b (socket b) (socket a)
reachable a b params0 params1 m =
    let there : (params0.remote_addr == b) ≡ true = eq→== params0.remote_addr b (m.to_host1) in
    let back : (params1.remote_addr == a) ≡ true = eq→== params1.remote_addr a (m.to_host0) in
    (rw there refl, rw back refl)

abbrev params : ℕ → ℕ → NetParams ℕ
params remote local = record { remote_addr = localhost; remote_port = remote; local_port = local }

met : Meets localhost localhost (params 8090 8089) (params 8089 8090)
met = record { to_host1 = refl; to_host0 = refl; to_port1 = refl; to_port0 = refl }

bench_main_runs_example :
    AlwaysEnds
      (1 * 4 + ((4 + 1 * 2) + (4 + 1 * 2)))
      (start
        (bench_main toy pair_group {clock = ticks} localhost
          (socket localhost)
          (ticks_from 100)
          envs0
          (args 0))
        (bench_main toy pair_group {clock = ticks} localhost
          (socket localhost)
          (ticks_from 900)
          envs1
          (args 1)))
      (idle
        (left_bytes 1)
        (right_bytes 1)
        (done (0, left_party {clock = ticks} (ticks_from 100) 1))
        (done (0, right_party {clock = ticks} (ticks_from 900) 1)))
unfolding net_params load
bench_main_runs_example =
    bench_main_runs toy pair_group AnyPoint ticks localhost localhost localhost (socket localhost)
      (socket localhost) (ticks_from 100) (ticks_from 900) envs0 envs1 (args 0) (args 1)
      (params 8090 8089) (params 8089 8090) toy-IsCrypto pair_group-IsCurve env0-IsEnvironment
      env1-IsEnvironment env0-IsEnvironment (refl, refl) refl refl refl refl
      (reachable localhost localhost) met (λ sigma e. any_points sigma, tt)
      (λ sigma e. any_points sigma, tt) (λ sigma e. any_points sigma, tt)

abbrev one_host : Arguments ℕ
one_host = record { party = 0; test_case = np_ot; test_number = 1; hosts = 10 ∷ []; ports = [] }

bench_main_refuses_example :
    (e : Error) × (bench_main toy pair_group {clock = ticks} localhost
        (socket localhost)
        (ticks_from 100)
        envs0
        one_host
      ≡ done (1, record (new_party ticks (ticks_from 100)) { errors = e ∷ [] }))
bench_main_refuses_example =
    bench_main_refuses toy pair_group ticks (ticks_from 100) localhost (socket localhost) envs0
      one_host (inl (λ e. absurd (omega arith)))
