-- ===== src/Interfaces.antt =====
-- The abstract classes of base-ot, two-choose-one and n-choose-one. An object is a state and its
-- virtual methods; a method that changes the object returns the new state. The sizes of the base
-- classes are part of the state.
pub mod Creators
use petace_verse.Common.{ℕ, List, Outcome}
use petace_verse.Util.Memory.{Block}
use petace_verse.Net.{Proc}

pub record BaseOtSender : Type 1 where
  pub State : Type 0
  pub state : State
  pub send : State → Proc (List (Block × Block) × State)

pub record BaseOtReceiver : Type 1 where
  pub State : Type 0
  pub state : State
  pub receive : State → List Block → Proc (List Block × State)

pub record OtExtSender : Type 1 where
  pub State : Type 0
  pub state : State
  pub set_base_ots : State → List Block → List Block → State
  pub send : State → Proc (List (Block × Block) × State)

pub record OtExtReceiver : Type 1 where
  pub State : Type 0
  pub state : State
  pub set_base_ots : State → List (Block × Block) → State
  pub receive : State → List Block → Proc (List Block × State)

pub record NcoOtExtSender : Type 1 where
  pub State : Type 0
  pub state : State
  pub set_base_ots : State → List Block → List Block → State
  pub send : State → ℕ → Proc (Unit {0} × State)
  pub encode : State → ℕ → Block → Outcome Block

pub record NcoOtExtReceiver : Type 1 where
  pub State : Type 0
  pub state : State
  pub set_base_ots : State → List (Block × Block) → State
  pub receive : State → List Block → Proc (List Block × State)
