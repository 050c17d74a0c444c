-- ===== src/Net/Waits.antt =====
-- Runs that end with one party waiting for ever: the other has returned, and sent too few bytes.
use petace_verse.Common.{ℕ, ◌+◌, ◌<◌, ◌≡◌, ◌∙◌, sym, refl, List, [], ◌++◌, length, arith}
use petace_verse.Net.{Proc, done, send_data, recv_data}
use petace_verse.Net.Run.{
  Config, Step, left_sends, right_sends, left_receives, right_receives, Steps, here, next, start,
}

module _ {A B : Type 0} where
  -- The right party has returned, and the left one waits for bytes that no step can bring.
  pub record Waits (e : Config A B) : Type 0 where
    pub result : B
    pub returned : e.right ≡ done result
    pub missing : ℕ
    pub rest : List ℕ → Proc A
    pub waiting : e.left ≡ recv_data missing rest
    pub short : length e.to_left < missing

  pub Waits-stuck : {e f : Config A B} → Waits e → ¬ Step e f
  Waits-stuck w (left_sends bs p h) = cc (w.waiting)
  Waits-stuck w (right_sends bs p h) = cc (w.returned)
  Waits-stuck w (left_receives n k h lt) =
      let same : n ≡ w.missing = asked n w.missing k w.rest (sym h ∙ w.waiting) in
      absurd (omega (arith, w.short))
    where
      asked : (n m : ℕ) (k l : List ℕ → Proc A) → recv_data n k ≡ recv_data m l → n ≡ m
      asked n m k l e = cc
  Waits-stuck w (right_receives n k h lt) = cc (w.returned)

  -- The session of `p` and `q` ends after one step with `p` waiting for ever.
  abbrev pub LeavesWaiting : Proc A → Proc B → Type 0
  LeavesWaiting p q =
      (e : Config A B) × Steps 1 (start p q) e × Waits e × ((f : Config A B) → ¬ Step e f)

  pub one_message-LeavesWaiting :
      (p : Proc A) (q : Proc B) (n : ℕ) (k : List ℕ → Proc A) (bytes : List ℕ) (b : B)
      → p ≡ recv_data n k
      → q ≡ send_data bytes (done b)
      → length bytes < n
      → LeavesWaiting p q
  one_message-LeavesWaiting p q n k bytes b hp hq lt =
      let end : Config A B = record {
        left = p;
        right = done b;
        to_left = [] ++ bytes;
        to_right = [];
        left_sent = 0;
        right_sent = 0 + length bytes;
        left_received = 0;
        right_received = 0;
      } in
      let waits : Waits end = record {
        result = b;
        returned = refl;
        missing = n;
        rest = k;
        waiting = hp;
        short = lt;
      } in
      (end, next (right_sends bytes (done b) hq) here, waits, λ f. Waits-stuck waits)
