-- ===== src/Programs/Menu.antt =====
-- `main` of example/example.cpp: the examples that it runs for the selections that it reads, each
-- over a connection of its own.
pub mod Calls
pub mod Crossed
pub mod Runs
use petace_verse.Common.{
  ℕ, ◌+◌, List, [], ◌∷◌, map, ◌==◌, not, if◌then◌else◌, length, Outcome, wrong_parameters,
}
use petace_verse.Crypto.{Crypto}
use petace_verse.Curve.{Curve}
use petace_verse.Net.{Proc, done, lift, check, ◌>>=◌}
use petace_verse.Programs.{Environment, Output}
use petace_verse.Programs.NpOtExample.{np_ot_example}
use petace_verse.Programs.IknpOtExample.{iknp_ot_example}
use petace_verse.Programs.KkrtOtExample.{kkrt_ot_example}
use petace_verse.Programs.Menu.Calls.{
  Example, np_ot, iknp_ot, kkrt_ot, Token, Turn, calls, skips, stops, turn_of, Call, NetParams,
  connection, call_of,
}

module _ (c : Crypto) (ec : Curve) where
  -- The example after it has opened its connection.
  unfoldable pub run_example : Example → Environment ec → ℕ → Proc Output
  run_example np_ot env party_id = np_ot_example c ec env party_id
  run_example iknp_ot env party_id = iknp_ot_example c ec env party_id
  run_example kkrt_ot env party_id = kkrt_ot_example c ec env party_id

-- `build` is `NetFactory::build` for a socket: it opens the connection that the parameters name, or
-- throws. The bytes of a party's connections, one after the other, are those that it sends and
-- receives.
module _ (c : Crypto) (ec : Curve) {Text : Type 0} (atoi : Text → ℕ)
    (build : NetParams Text → Outcome (Unit {0})) where
  -- A call in a turn, and then the rest of the loop: what is printed, for each call.
  unfoldable pub call_then :
      List Text → Example → Environment ec → Proc (List Output) → Proc (List Output)
  call_then argv example env rest = do
    call ← lift (call_of atoi argv example)
    net ← lift (build (connection atoi call))
    printed ← run_example c ec call.example env call.party_id
    others ← rest
    done (printed ∷ others)

  -- The loop from turn `k` on; each turn has its own random bytes. An exception of a call, which nothing catches, ends it. The end of the
  -- input leaves a selection of 0.
  unfoldable pub menu : (ℕ → Environment ec) → List Text → ℕ → List Turn → Proc (List Output)
  menu environment argv k [] = done []
  menu environment argv k (calls example ∷ turns) =
      call_then argv example (environment k) (menu environment argv (k + 1) turns)
  menu environment argv k (skips ∷ turns) = menu environment argv (k + 1) turns
  menu environment argv k (stops ∷ turns) = done []

  unfoldable pub example_main : (ℕ → Environment ec) → List Text → List Token → Proc (List Output)
  example_main environment argv input = check (not (length argv == 6)) wrong_parameters >>= λ _.
      menu environment argv 0 (map turn_of input)
