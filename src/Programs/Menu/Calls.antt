-- ===== src/Programs/Menu/Calls.antt =====
-- What the `main` of example/example.cpp reads: the turns of its loop, and the arguments and the
-- connection of a call.
use petace_verse.Common.{ℕ, ◌%◌, ◌^◌, List, ◌==◌, if◌then◌else◌, ltb, load, Outcome, ok, ◌>>=◌}

pub data Example : Type 0 where
  np_ot : Example
  iknp_ot : Example
  kkrt_ot : Example

-- What stands on the input: numbers, negative numbers (the number is the absolute value), and
-- anything that does not begin with one.
pub data Token : Type 0 where
  number : ℕ → Token
  negative : ℕ → Token
  word : Token

-- A turn of the loop: it calls an example, does nothing, or is the last one.
pub data Turn : Type 0 where
  calls : Example → Turn
  skips : Turn
  stops : Turn

-- `switch (selection)`
unfoldable pub switch : ℕ → Turn
switch selection =
    if selection == 1
    then calls np_ot
    else if selection == 2
    then calls iknp_ot
    else if selection == 3
    then calls kkrt_ot
    else if selection == 0
    then stops
    else skips

-- `std::cin >> selection` into an `int` that is 0, and the `switch`. A text that is no number leaves
-- a 0, and so does every reading after one that has failed: a number that 32 bits do not hold gives
-- the largest or the smallest `int`, which is no case, and the next turn is the last.
unfoldable pub turn_of : Token → Turn
turn_of (number n) = if ltb n (2 ^ 31) then switch n else stops
turn_of (negative n) = if ltb (2 ^ 31) n then stops else if n == 0 then stops else skips
turn_of word = stops

-- The texts of the command line.
module _ (Text : Type 0) where
  -- The call of an example with its arguments.
  pub record Call : Type 0 where
    pub example : Example
    pub party_id : ℕ
    pub local_addr : Text
    pub local_port : ℕ
    pub remote_addr : Text
    pub remote_port : ℕ

  -- `petace::network::NetParams`
  pub record NetParams : Type 0 where
    pub remote_addr : Text
    pub remote_port : ℕ
    pub local_addr : Text
    pub local_port : ℕ

-- `atoi` with the conversion of its result to `std::size_t`.
module _ {Text : Type 0} (atoi : Text → ℕ) where
  -- The ports are cast to 16 bits.
  unfoldable pub connection : Call Text → NetParams Text
  connection call = record {
    remote_addr = call.remote_addr;
    remote_port = call.remote_port % 2 ^ 16;
    local_addr = call.local_addr;
    local_port = call.local_port % 2 ^ 16;
  }

  -- The arguments of all three cases of the `switch`.
  unfoldable pub call_of : List Text → Example → Outcome (Call Text)
  call_of argv example = do
    party ← load argv 5
    local_addr ← load argv 1
    local_port ← load argv 2
    remote_addr ← load argv 3
    remote_port ← load argv 4
    ok (record {
      example = example;
      party_id = atoi party;
      local_addr = local_addr;
      local_port = atoi local_port;
      remote_addr = remote_addr;
      remote_port = atoi remote_port;
    })
