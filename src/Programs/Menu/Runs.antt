-- ===== src/Programs/Menu/Runs.antt =====
-- A run of the `main` of the examples by two parties.
use petace_verse.Common.{ℕ, List, Outcome, ◌≡◌, ◌≢◌, refl, length, ne→==, wrong_parameters}
use petace_verse.Crypto.{Crypto}
use petace_verse.Curve.{Curve}
use petace_verse.Net.{Proc, done, throw}
use petace_verse.Net.Run.{start, idle}
use petace_verse.Net.Schedules.{AlwaysEnds}
use petace_verse.Programs.{Environment, Output}
use petace_verse.Programs.Menu.Calls.{Example, Token, Turn, Call, NetParams}
use petace_verse.Programs.Menu.{example_main}
use petace_verse.Programs.Menu.Crossed.{example_steps, example_left, example_right, total, AllAgree}

abbrev call_from :
    {Text : Type 0} → (Text → ℕ) → Text → Text → Text → Text → Text → Example → Call Text
call_from atoi a pa b pb x example = record {
  example = example;
  party_id = atoi x;
  local_addr = a;
  local_port = atoi pa;
  remote_addr = b;
  remote_port = atoi pb;
}

module _ (c : Crypto) (ec : Curve) {Text : Type 0} (atoi : Text → ℕ)
    (build : NetParams Text → Outcome (Unit {0})) where
  -- With any other number of arguments the exception is not caught.
  pub example_main_refuses :
      (environment : ℕ → Environment ec) (argv : List Text) (input : List Token)
      → length argv ≢ 6
      → example_main c ec atoi build environment argv input ≡ throw wrong_parameters
  unfolding example_main
  example_main_refuses environment argv input h = rw (ne→== (length argv) 6 h) refl

module _ (c : Crypto) (ec : Curve) (IsEncodable : ec.Point → Type 0) {Text : Type 0}
    (atoi : Text → ℕ) (build0 build1 : NetParams Text → Outcome (Unit {0}))
    (envs0 envs1 : ℕ → Environment ec) where
  -- The printouts of two programs, and the run to them.
  pub record MainsPrinted (turns : List Turn) (left right : Proc (List Output)) : Type 0 where
    pub left_outputs : List Output
    pub right_outputs : List Output
    pub run : AlwaysEnds (total example_steps turns) (start left right) (
        idle
          (total example_left turns)
          (total example_right turns)
          (done left_outputs)
          (done right_outputs))
    pub agree : AllAgree c ec IsEncodable envs1 0 turns left_outputs right_outputs
