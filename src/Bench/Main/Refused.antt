-- ===== src/Bench/Main/Refused.antt =====
-- Command lines that the program refuses.
use petace_verse.Common.{ℕ, Outcome, [], ◌∷◌, length, ◌⊎◌, ◌≡◌, ◌≢◌, refl, Error}
use petace_verse.Crypto.{Crypto}
use petace_verse.Curve.{Curve}
use petace_verse.Net.{done}
use petace_verse.Bench.{Clock, caught, lifted, and_then}
use petace_verse.Bench.Params.{NetParams, host_list, port_list, net_params_refuses}
use petace_verse.Bench.Main.{new_party, Arguments, Environments, bench_main}

-- With hosts and ports that are not as many as each other, or hosts that are not two, given or by
-- default, the program prints an exception and ends with 1, without a benchmark, a message or a line
-- in its log.
pub bench_main_refuses :
    (c : Crypto) (ec : Curve) (clock : Clock) (reading : ℕ → clock.Time) {Host : Type 0}
    (localhost : Host) (build : NetParams Host → Outcome (Unit {0})) (env : Environments ec)
    (args : Arguments Host)
    → let host = host_list localhost args.hosts args.ports in
      let port = port_list localhost args.hosts args.ports in
      (length host ≢ length port) ⊎ (length host ≢ 2)
      → (e : Error) × (bench_main c ec localhost build reading env args
          ≡ done (1, record (new_party clock reading) { errors = e ∷ [] }))
unfolding bench_main caught lifted and_then new_party
bench_main_refuses c ec clock reading localhost build env args h =
    let r = net_params_refuses localhost args.hosts args.ports args.party h in (r.0, rw (r.1) refl)
