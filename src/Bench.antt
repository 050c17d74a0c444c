-- ===== src/Bench.antt =====
-- bench: the three benchmarks of verse_bench.cpp and the program of bench.cpp that runs them.
-- A part of a benchmark runs on the state of its party: the readings of its own clock and how often
-- it was read, the counters of the network object, the file of the log and what `std::cerr` was
-- given.
pub mod Metered
pub mod NpOt
pub mod IknpOt
pub mod KkrtOt
pub mod Params
pub mod Main
use petace_verse.Common.{ℕ, ◌+◌, List, [], ◌∷◌, ◌++◌, length, refl, Error, Outcome, ok, err, fault}
use petace_verse.Net.{Proc, done, throw, crash, send_data, recv_data}

-- The readings of a system clock, and their differences.
pub record Clock : Type 1 where
  pub Time : Type 0
  pub minus : Time → Time → Time

-- The texts "case np_ot_", "case iknp_ot_" and "case kkrt_ot_".
pub data Label : Type 0 where
  case_np_ot : Label
  case_iknp_ot : Label
  case_kkrt_ot : Label

-- The two lines that a benchmark logs, with what they show: the label, the sizes, then the time
-- and the number of calls, or the time, the duration and the bytes sent and received.
pub data Line (clock : Clock) : Type 0 where
  begins : Label → List ℕ → clock.Time → ℕ → Line clock
  ends : Label → List ℕ → clock.Time → clock.Time → ℕ → ℕ → Line clock

pub record Party (clock : Clock) : Type 0 where
  pub reading : ℕ → clock.Time
  pub readings : ℕ
  pub bytes_sent : ℕ
  pub bytes_received : ℕ
  pub log_file : List (Line clock)
  pub errors : List Error

-- A value, or an exception on its way to a `catch`.
pub data Result {κ} (A : Type κ) : Type κ where
  returned : A → Result A
  threw : Error → Result A

abbrev pub Bench {κ} : Clock → Type κ → Type κ
Bench clock A = Party clock → Proc (Result A × Party clock)

-- A benchmark logs its end, or prints what an exception says.
pub data Report (A : Type 0) : Type 0 where
  logged : A → Report A
  printed : Error → Report A

module _ {clock : Clock} where
  unfoldable pub and_then {κ ℓ} :
      {A : Type κ} {B : Type ℓ}
      → Proc (Result A × Party clock)
      → (A → Bench clock B)
      → Proc (Result B × Party clock)
  and_then (done (returned a, st)) f = f a st
  and_then (done (threw e, st)) f = done (threw e, st)
  and_then (throw e) f = throw e
  and_then crash f = crash
  and_then (send_data bs p) f = send_data bs (and_then p f)
  and_then (recv_data n k) f = recv_data n (λ bs. and_then (k bs) f)

  infixr 4 ◌>>>◌
  abbrev pub ◌>>>◌ {κ ℓ} :
      {A : Type κ} {B : Type ℓ} → Bench clock A → (A → Bench clock B) → Bench clock B
  m >>> f = λ st. and_then (m st) f

  abbrev pub returns : {A : Type 0} → A → Bench clock A
  returns a st = done (returned a, st)

  -- Code that touches neither the network nor the state.
  unfoldable pub lifted {κ} : {A : Type κ} → Outcome A → Bench clock A
  lifted (ok a) st = done (returned a, st)
  lifted (err e) st = done (threw e, st)
  lifted fault st = crash

  -- Calls of the network object, which counts the bytes.
  unfoldable pub on_net : {A : Type 0} → Proc A → Bench clock A
  on_net (done a) st = done (returned a, st)
  on_net (throw e) st = done (threw e, st)
  on_net crash st = crash
  on_net (send_data bs p) st =
      send_data bs (on_net p (record st { bytes_sent = st.bytes_sent + length bs }))
  on_net (recv_data n k) st =
      recv_data n (λ bs. on_net (k bs) (record st { bytes_received = st.bytes_received + n }))

  unfoldable pub get_unix_timestamp : Bench clock clock.Time
  get_unix_timestamp st =
      done (returned (st.reading st.readings), record st { readings = st.readings + 1 })

  unfoldable pub get_bytes_sent : Bench clock ℕ
  get_bytes_sent st = done (returned st.bytes_sent, st)

  unfoldable pub get_bytes_received : Bench clock ℕ
  get_bytes_received st = done (returned st.bytes_received, st)

  -- `LOG(INFO) << …`, which `LogToFileSink::send` writes to the file as a line.
  unfoldable pub log : Line clock → Bench clock (Unit {0})
  log line st = done (returned tt, record st { log_file = st.log_file ++ (line ∷ []) })

  -- The calls of a benchmark between the two lines of its log, each with its label.
  unfoldable pub timed : {A : Type 0} → Label → Label → List ℕ → ℕ → Proc A → Bench clock A
  timed label end_label sizes test_number calls = get_unix_timestamp >>> λ begin.
      log (begins label sizes begin test_number) >>> λ _. on_net calls >>> λ messages.
      get_unix_timestamp >>> λ end. get_bytes_sent >>> λ sent. get_bytes_received >>> λ received.
      log (ends end_label sizes end (clock.minus end begin) sent received) >>> λ _. returns messages

  -- `std::cerr << e.what()`
  abbrev print_error : Error → Party clock → Party clock
  print_error e st = record st { errors = st.errors ++ (e ∷ []) }

  unfoldable pub caught :
      {A : Type 0}
      → Party clock
      → Proc (Result A × Party clock)
      → Proc (Result (Report A) × Party clock)
  unfolding print_error
  caught before (done (returned a, st)) = done (returned (logged a), st)
  caught before (done (threw e, st)) = done (returned (printed e), print_error e st)
  caught before (throw e) = done (returned (printed e), print_error e before)
  caught before crash = crash
  caught before (send_data bs p) = send_data bs (caught before p)
  caught before (recv_data n k) = recv_data n (λ bs. caught before (k bs))

  -- try { … } catch (const std::exception& e) { … }: a crash is not caught.
  abbrev pub try_catch : {A : Type 0} → Bench clock A → Bench clock (Report A)
  try_catch m st = caught st (m st)
