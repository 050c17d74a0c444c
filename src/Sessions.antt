-- ===== src/Sessions.antt =====
-- Calls of a method in a row, as the benchmarks make them, over any pair of methods that take two
-- objects ready for `m + 1` calls to two objects ready for `m`.
pub mod Protocols
use petace_verse.Common.{ℕ, zero, suc, ◌+◌, ◌*◌, ◌<◌, ◌≡◌, refl, arith}
use petace_verse.Net.{Proc, done, ◌>>=◌}
use petace_verse.Net.Run.{Steps, here, idle}
use petace_verse.Net.Compose.{Steps-trans, run_then, retimed}

-- for (i = 0; i < n; i++) object->method(…, out): the last output stands.
unfoldable pub repeat : {S X : Type 0} → ℕ → (S → Proc (X × S)) → X → S → Proc (X × S)
repeat zero method out s = done (out, s)
repeat (suc n) method out s = method s >>= λ r. repeat n method r.0 r.1

module _ {S R X Y : Type 0} (send : S → Proc (X × S)) (receive : R → Proc (Y × R))
    (Ready : ℕ → S → R → Type 0) (Post : S → R → X → Y → Type 0) (steps l r : ℕ) where
  -- One call on each side: `steps` steps, `l` and `r` bytes, and ready for `m` more.
  pub record Session (m : ℕ) (s : S) (t : R) : Type 0 where
    pub left_out : X
    pub right_out : Y
    pub left_after : S
    pub right_after : R
    pub run :
        (i j : ℕ)
        → Steps steps
            (idle i j (send s) (receive t))
            (idle (i + l) (j + r) (done (left_out, left_after)) (done (right_out, right_after)))
    pub ready : Ready m left_after right_after
    pub post : Post left_after right_after left_out right_out

  -- A run of both loops to their ends.
  pub record Repeated (n : ℕ) (x : X) (y : Y) (s : S) (t : R) : Type 0 where
    pub left_out : X
    pub right_out : Y
    pub left_after : S
    pub right_after : R
    pub run :
        (i j : ℕ)
        → Steps (n * steps) (idle i j (repeat n send x s) (repeat n receive y t)) (
            idle
              (i + n * l)
              (j + n * r)
              (done (left_out, left_after))
              (done (right_out, right_after)))
    pub ready : Ready 0 left_after right_after
    pub post : 0 < n → Post left_after right_after left_out right_out

  -- When a call of both methods takes any two objects that are ready for `m + 1` calls to two that
  -- are ready for `m`, in `steps` steps with `l` and `r` bytes sent, then the two loops of `n` calls
  -- on objects that are ready for `n` end on both sides after `n` times as many steps and bytes, and
  -- unless `n` is 0, the outputs they end with are as the last call promises.
  pub sessions_repeat :
      ((m : ℕ) (s : S) (t : R) → Ready (suc m) s t → Session m s t)
      → (n : ℕ) (x : X) (y : Y) (s : S) (t : R) → Ready n s t
      → Repeated n x y s t
  unfolding repeat
  sessions_repeat law zero x y s t h = record {
    left_out = x;
    right_out = y;
    left_after = s;
    right_after = t;
    run = λ i j.
        retimed 0 (0 * steps) i (i + 0 * l) j (j + 0 * r) _ _ _ (omega arith) (omega arith)
          (omega arith) here;
    ready = h;
    post = λ lt. absurd (omega arith);
  }
  sessions_repeat law (suc zero) x y s t h =
      let one = law 0 s t h in
      record {
        left_out = one.left_out;
        right_out = one.right_out;
        left_after = one.left_after;
        right_after = one.right_after;
        run = λ i j.
            retimed steps (1 * steps) (i + l) (i + 1 * l) (j + r) (j + 1 * r) _ _ _ (omega arith)
              (omega arith) (omega arith)
              (run_then (λ a. repeat 0 send a.0 a.1) (λ b. repeat 0 receive b.0 b.1) steps i j
                (i + l) (j + r) (send s) (receive t) (one.left_out, one.left_after)
                (one.right_out, one.right_after) (one.run i j));
        ready = one.ready;
        post = λ lt. one.post;
      }
  sessions_repeat law (suc (suc n)) x y s t h =
      let one = law (suc n) s t h in
      let rest =
        sessions_repeat law (suc n) one.left_out one.right_out one.left_after one.right_after
          one.ready in
      record {
        left_out = rest.left_out;
        right_out = rest.right_out;
        left_after = rest.left_after;
        right_after = rest.right_after;
        run = λ i j.
            retimed (steps + suc n * steps) (suc (suc n) * steps) (i + l + suc n * l)
              (i + suc (suc n) * l) (j + r + suc n * r) (j + suc (suc n) * r) _ _ _ (omega arith)
              (omega arith) (omega arith)
              (Steps-trans
                (run_then (λ a. repeat (suc n) send a.0 a.1) (λ b. repeat (suc n) receive b.0 b.1)
                  steps i j (i + l) (j + r) (send s) (receive t) (one.left_out, one.left_after)
                  (one.right_out, one.right_after) (one.run i j))
                (rest.run (i + l) (j + r)));
        ready = rest.ready;
        post = λ lt. rest.post (omega arith);
      }
