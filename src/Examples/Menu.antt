-- ===== src/Examples/Menu.antt =====
-- Witnesses of the theorems on the `main` of the examples; a text is the number that it shows.
use petace_verse.Common.{ℕ, List, [], ◌∷◌, ◌==◌, if◌then◌else◌, Outcome, ok, err, no_connection}
use petace_verse.Programs.Menu.Calls.{Token, number, negative, NetParams}

abbrev atoi : ℕ → ℕ
atoi n = n

-- The example of the number 1 after one past 2^32 is not called.
abbrev selections : List Token
selections =
    number 2 ∷ number 7 ∷ negative 5 ∷ number 1 ∷ number 3 ∷ number 4294967296 ∷ number 1 ∷ []

-- A network with one other address: a connection to any other one cannot be opened.
abbrev socket : ℕ → NetParams ℕ → Outcome (Unit {0})
socket peer net_params = if net_params.remote_addr == peer then ok tt else err no_connection
