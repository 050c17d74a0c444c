-- ===== src/Bench/Metered.antt =====
-- A run of two parties inside two benchmarks, which count its bytes and log them.
use petace_verse.Common.{ℕ, ◌+◌, refl, ap, List, [], ◌∷◌, ◌++◌, length}
use petace_verse.Net.{Proc, done}
use petace_verse.Net.Run.{
  Config, Step, left_sends, right_sends, left_receives, right_receives, Steps, here, next, idle,
}
use petace_verse.Net.Compose.{around-Steps}
use petace_verse.Bench.{
  Clock, Label, Line, begins, ends, Party, Result, returned, Bench, logged, on_net, and_then, timed,
  try_catch, caught, get_unix_timestamp, get_bytes_sent, get_bytes_received, log,
}

module _ {clock : Clock} where
  -- The party with these counts of bytes.
  abbrev pub counted : Party clock → ℕ → ℕ → Party clock
  counted st sent received = record st { bytes_sent = sent; bytes_received = received }

  -- What a benchmark logs, from the reading of the clock that it begins with.
  abbrev pub log_lines :
      Label → Label → List ℕ → ℕ → (ℕ → clock.Time) → ℕ → ℕ → ℕ → List (Line clock)
  log_lines label end_label sizes test_number clock_reading reading sent received =
      let begin = clock_reading reading in
      let end = clock_reading (reading + 1) in
      begins label sizes begin test_number
      ∷ ends end_label sizes end (clock.minus end begin) sent received
      ∷ []

  -- The party after a benchmark that ends by its log, with the counts of bytes.
  abbrev pub after : Label → Label → List ℕ → ℕ → Party clock → ℕ → ℕ → Party clock
  after label end_label sizes test_number st sent received =
      let begin = st.reading st.readings in
      let end = st.reading (st.readings + 1) in
      record {
        reading = st.reading;
        readings = st.readings + 1 + 1;
        bytes_sent = sent;
        bytes_received = received;
        log_file =
            st.log_file
            ++ (begins label sizes begin test_number ∷ [])
            ++ (ends end_label sizes end (clock.minus end begin) sent received ∷ []);
        errors = st.errors;
      }

  module _ {A B : Type 0} (s t : Party clock) where
    -- A configuration whose parties keep their counts themselves.
    abbrev metered : Config A B → Config (Result A × Party clock) (Result B × Party clock)
    metered c = record {
      left = on_net c.left (counted s c.left_sent c.left_received);
      right = on_net c.right (counted t c.right_sent c.right_received);
      to_left = c.to_left;
      to_right = c.to_right;
      left_sent = c.left_sent;
      right_sent = c.right_sent;
      left_received = c.left_received;
      right_received = c.right_received;
    }

    metered-Step : {c d : Config A B} → Step c d → Step (metered c) (metered d)
    unfolding on_net
    metered-Step {c} (left_sends bs p h) =
        left_sends bs (on_net p (counted s (c.left_sent + length bs) c.left_received))
          (ap (λ q. on_net q (counted s c.left_sent c.left_received)) h)
    metered-Step {c} (right_sends bs p h) =
        right_sends bs (on_net p (counted t (c.right_sent + length bs) c.right_received))
          (ap (λ q. on_net q (counted t c.right_sent c.right_received)) h)
    metered-Step {c} (left_receives n k h lt) =
        left_receives n (λ bs. on_net (k bs) (counted s c.left_sent (c.left_received + n)))
          (ap (λ q. on_net q (counted s c.left_sent c.left_received)) h) lt
    metered-Step {c} (right_receives n k h lt) =
        right_receives n (λ bs. on_net (k bs) (counted t c.right_sent (c.right_received + n)))
          (ap (λ q. on_net q (counted t c.right_sent c.right_received)) h) lt

    metered-Steps : {n : ℕ} {c d : Config A B} → Steps n c d → Steps n (metered c) (metered d)
    metered-Steps here = here
    metered-Steps (next u rest) = next (metered-Step u) (metered-Steps rest)

    -- A run to results, inside two parts of benchmarks.
    pub on_net-Steps :
        (n i j i' j' : ℕ) (p : Proc A) (q : Proc B) (a : A) (b : B)
        → Steps n (idle i j p q) (idle i' j' (done a) (done b))
        → Steps n
            (idle i j (on_net p (counted s i j)) (on_net q (counted t j i)))
            (idle i' j' (done (returned a, counted s i' j')) (done (returned b, counted t j' i')))
    unfolding on_net
    on_net-Steps n i j i' j' p q a b run = metered-Steps run

  -- One benchmark after the other on both sides.
  pub and_then-Steps :
      {A B C D : Type 0} (n i j i' j' : ℕ) (p : Proc (Result A × Party clock))
      (q : Proc (Result B × Party clock)) (a : A) (b : B) (s t : Party clock)
      (f : A → Bench clock C) (g : B → Bench clock D)
      → Steps n (idle i j p q) (idle i' j' (done (returned a, s)) (done (returned b, t)))
      → Steps n (idle i j (and_then p f) (and_then q g)) (idle i' j' (f a s) (g b t))
  unfolding and_then
  and_then-Steps n i j i' j' p q a b s t f g run =
      around-Steps (λ r. and_then r f) (λ r. and_then r g) (λ bs r. refl) (λ bs r. refl)
        (λ m k. refl) (λ m k. refl) run

  -- A run to results, inside two programs that would catch an exception.
  pub caught-Steps :
      {A B : Type 0} (n i j i' j' : ℕ) (p : Proc (Result A × Party clock))
      (q : Proc (Result B × Party clock)) (a : A) (b : B) (s t s' t' : Party clock)
      → Steps n (idle i j p q) (idle i' j' (done (returned a, s')) (done (returned b, t')))
      → Steps n
          (idle i j (caught s p) (caught t q))
          (idle i' j' (done (returned (logged a), s')) (done (returned (logged b), t')))
  unfolding caught
  caught-Steps n i j i' j' p q a b s t s' t' run =
      around-Steps (caught s) (caught t) (λ bs r. refl) (λ bs r. refl) (λ m k. refl) (λ m k. refl)
        run

  -- A run to results, inside two benchmarks: both log their begin and their end.
  pub timed-Steps :
      {A B : Type 0} (label end_label : Label) (sizes : List ℕ) (k n i j i' j' : ℕ) (p : Proc A)
      (q : Proc B) (a : A) (b : B) (s t : Party clock)
      → Steps n (idle i j p q) (idle i' j' (done a) (done b))
      → Steps n
          (idle i j
            (try_catch (timed label end_label sizes k p) (counted s i j))
            (try_catch (timed label end_label sizes k q) (counted t j i)))
          (idle i' j'
            (done (returned (logged a), after label end_label sizes k s i' j'))
            (done (returned (logged b), after label end_label sizes k t j' i')))
  unfolding timed and_then get_unix_timestamp get_bytes_sent get_bytes_received log
  timed-Steps label end_label sizes k n i j i' j' p q a b s t run =
      caught-Steps n i j i' j' _ _ a b (counted s i j) (counted t j i)
        (after label end_label sizes k s i' j') (after label end_label sizes k t j' i')
        (and_then-Steps n i j i' j' _ _ a b _ _ _ _
          (on_net-Steps (begun s) (begun t) n i j i' j' p q a b run))
    where
      begun : Party clock → Party clock
      begun st = record st {
        readings = st.readings + 1;
        log_file = st.log_file ++ (begins label sizes (st.reading st.readings) k ∷ []);
      }
