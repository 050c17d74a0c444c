-- ===== src/Programs/Menu/Crossed.antt =====
-- The programs of two parties whose command lines exchange the two addresses.
use petace_verse.Common.{ℕ, ◌+◌, ◌*◌, List, [], ◌∷◌, Outcome, ok, ◌≡◌}
use petace_verse.Crypto.{Crypto}
use petace_verse.Curve.{Curve}
use petace_verse.Sessions.Protocols.{Sendable}
use petace_verse.Programs.{Environment, IsEnvironment, read_block_from_dev_urandom, Output}
use petace_verse.Programs.Printed.{Agree}
use petace_verse.Programs.IknpPhase as Iknp
use petace_verse.Programs.KkrtPhase as Kkrt
use petace_verse.Programs.KkrtOtRun.{EncodedAgree}
use petace_verse.Programs.Menu.Calls.{
  Example, np_ot, iknp_ot, kkrt_ot, Turn, calls, skips, stops, NetParams,
}

module _ {Text : Type 0} (a b : Text) where
  -- The parameters of two parties at these addresses name each other's address and port.
  pub record Meets (left right : NetParams Text) : Type 0 where
    pub at_left : left.local_addr ≡ a
    pub at_right : right.local_addr ≡ b
    pub to_right : left.remote_addr ≡ right.local_addr
    pub to_left : right.remote_addr ≡ left.local_addr
    pub to_right_port : left.remote_port ≡ right.local_port
    pub to_left_port : right.remote_port ≡ left.local_port

  -- `NetFactory::build` of two parties at these addresses opens a connection whose parameters meet,
  -- on both sides.
  abbrev pub IsReachable :
      (NetParams Text → Outcome (Unit {0})) → (NetParams Text → Outcome (Unit {0})) → Type 0
  IsReachable build0 build1 =
      (left right : NetParams Text)
      → Meets left right
      → (build0 left ≡ ok tt) × (build1 right ≡ ok tt)

-- The steps of an example, and the bytes that party 0 and party 1 send in it.
abbrev pub example_steps : Example → ℕ
example_steps np_ot = 4
example_steps iknp_ot = 6
example_steps kkrt_ot = 6

abbrev pub example_left : Example → ℕ
example_left np_ot = 2 * 128 * 33
example_left iknp_ot = 128 * 33
example_left kkrt_ot = 512 * 33

abbrev pub example_right : Example → ℕ
example_right np_ot = 128 * 33
example_right iknp_ot = 2 * 128 * 33 + 1024 * 16
example_right kkrt_ot = 2 * 512 * 33 + 1024 * 4 * 16

-- The sum over the calls before the loop stops.
abbrev pub total : (Example → ℕ) → List Turn → ℕ
total amount [] = 0
total amount (calls example ∷ turns) = amount example + total amount turns
total amount (skips ∷ turns) = total amount turns
total amount (stops ∷ turns) = 0

module _ (c : Crypto) (ec : Curve) (IsEncodable : ec.Point → Type 0) where
  -- The random bytes are blocks, and 33 bytes hold the points of the base transfers of an example.
  abbrev pub IsReady : Environment ec → Environment ec → Type 0
  IsReady env0 env1 =
      IsEnvironment env0
      × IsEnvironment env1
      × Sendable ec (read_block_from_dev_urandom env1 0 ∷ []) IsEncodable 1 128 env0.sender_source
          env1.receiver_source
      × Sendable ec (Iknp.base_choices_of env0) IsEncodable 1 128 env1.sender_source
          env0.receiver_source
      × Sendable ec (Kkrt.base_choices_of env0) IsEncodable 1 512 env1.sender_source
          env0.receiver_source

  -- The printouts of an example agree: party 1 has the messages of party 0 at its choices.
  abbrev pub PrintoutsAgree : Example → Environment ec → Output → Output → Type 0
  PrintoutsAgree np_ot env1 left right =
      Agree 128 (read_block_from_dev_urandom env1 0 ∷ []) left right
  PrintoutsAgree iknp_ot env1 left right = Agree 1024 (Iknp.ext_choices_of env1) left right
  PrintoutsAgree kkrt_ot env1 left right = EncodedAgree left right

  -- One printout on each side for each call before the loop stops, in order, and they agree.
  abbrev pub AllAgree : (ℕ → Environment ec) → ℕ → List Turn → List Output → List Output → Type 0
  AllAgree envs k [] left right = (left ≡ []) × (right ≡ [])
  AllAgree envs k (stops ∷ turns) left right = (left ≡ []) × (right ≡ [])
  AllAgree envs k (skips ∷ turns) left right = AllAgree envs (k + 1) turns left right
  AllAgree envs k (calls example ∷ turns) [] right = ⊥
  AllAgree envs k (calls example ∷ turns) (o ∷ left) [] = ⊥
  AllAgree envs k (calls example ∷ turns) (o ∷ left) (p ∷ right) =
      PrintoutsAgree example (envs k) o p × AllAgree envs (k + 1) turns left right
