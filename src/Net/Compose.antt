-- ===== src/Net/Compose.antt =====
-- Runs one after the other, with the parties exchanged, and inside a longer program.
use petace_verse.Common.{
  ℕ, suc, ◌+◌, ◌≡◌, refl, ◌∙◌, ap, subst, List, ◌++◌, length, arith, take, drop,
}
use petace_verse.Net.{Proc, done, send_data, recv_data, ◌>>=◌}
use petace_verse.Net.Run.{
  Config, Step, left_sends, right_sends, left_receives, right_receives, Steps, here, next, idle,
  start,
}

module _ {A B : Type 0} where
  append-Steps :
      {n : ℕ} {c d : Config A B}
      → Steps n c d
      → (m : ℕ) (e : Config A B) → Steps m d e
      → (k : ℕ) × (k ≡ n + m) × Steps k c e
  append-Steps here m e t = (m, omega arith, t)
  append-Steps (next s rest) m e t =
      let r = append-Steps rest m e t in (suc r.0, omega (arith, r.1), next s r.2)

  -- One run and then another.
  pub Steps-trans : {n m : ℕ} {c d e : Config A B} → Steps n c d → Steps m d e → Steps (n + m) c e
  Steps-trans {m} {c} {e} s t = let r = append-Steps s m e t in subst (λ k. Steps k c e) r.1 r.2

  -- A configuration seen from the other side.
  abbrev pub mirror : Config A B → Config B A
  mirror c = record {
    left = c.right;
    right = c.left;
    to_left = c.to_right;
    to_right = c.to_left;
    left_sent = c.right_sent;
    right_sent = c.left_sent;
    left_received = c.right_received;
    right_received = c.left_received;
  }

  mirror-Step : {c d : Config A B} → Step c d → Step (mirror c) (mirror d)
  mirror-Step (left_sends bs p h) = right_sends bs p h
  mirror-Step (right_sends bs p h) = left_sends bs p h
  mirror-Step (left_receives n k h lt) = right_receives n k h lt
  mirror-Step (right_receives n k h lt) = left_receives n k h lt

  pub mirror-Steps : {n : ℕ} {c d : Config A B} → Steps n c d → Steps n (mirror c) (mirror d)
  mirror-Steps here = here
  mirror-Steps (next s rest) = next (mirror-Step s) (mirror-Steps rest)

-- Programs around two parties that pass on what the parties send and receive.
module _ {A B C D : Type 0} (f : Proc A → Proc C) (g : Proc B → Proc D)
    (f-send : (bs : List ℕ) (p : Proc A) → f (send_data bs p) ≡ send_data bs (f p))
    (g-send : (bs : List ℕ) (p : Proc B) → g (send_data bs p) ≡ send_data bs (g p))
    (f-recv : (n : ℕ) (k : List ℕ → Proc A) → f (recv_data n k) ≡ recv_data n (λ bs. f (k bs)))
    (g-recv : (n : ℕ) (k : List ℕ → Proc B)
      → g (recv_data n k) ≡ recv_data n (λ bs. g (k bs))) where
  abbrev around : Config A B → Config C D
  around c = record {
    left = f c.left;
    right = g c.right;
    to_left = c.to_left;
    to_right = c.to_right;
    left_sent = c.left_sent;
    right_sent = c.right_sent;
    left_received = c.left_received;
    right_received = c.right_received;
  }

  around-Step : {c d : Config A B} → Step c d → Step (around c) (around d)
  around-Step (left_sends bs p h) = left_sends bs (f p) (ap f h ∙ f-send bs p)
  around-Step (right_sends bs p h) = right_sends bs (g p) (ap g h ∙ g-send bs p)
  around-Step (left_receives n k h lt) = left_receives n (λ bs. f (k bs)) (ap f h ∙ f-recv n k) lt
  around-Step (right_receives n k h lt) = right_receives n (λ bs. g (k bs)) (ap g h ∙ g-recv n k) lt

  pub around-Steps : {n : ℕ} {c d : Config A B} → Steps n c d → Steps n (around c) (around d)
  around-Steps here = here
  around-Steps (next s rest) = next (around-Step s) (around-Steps rest)

-- A run to results, inside two programs that go on with them.
pub run_then :
    {A B C D : Type 0} (f : A → Proc C) (g : B → Proc D) (n i j i' j' : ℕ) (p : Proc A) (q : Proc B)
    (a : A) (b : B)
    → Steps n (idle i j p q) (idle i' j' (done a) (done b))
    → Steps n (idle i j (p >>= f) (q >>= g)) (idle i' j' (f a) (g b))
run_then f g n i j i' j' p q a b run =
    around-Steps (λ t. t >>= f) (λ t. t >>= g) (λ bs t. refl) (λ bs t. refl) (λ m k. refl)
      (λ m k. refl) run

-- The same run with its counts written otherwise.
pub retimed :
    {A B : Type 0} (n n' i i' j j' : ℕ) (c : Config A B) (p : Proc A) (q : Proc B)
    → n ≡ n'
    → i ≡ i'
    → j ≡ j'
    → Steps n c (idle i j p q)
    → Steps n' c (idle i' j' p q)
retimed n n' i i' j j' c p q e f g run =
    subst (λ k. Steps k c (idle i' j' p q)) e
      (subst (λ k. Steps n c (idle k j' p q)) f (subst (λ k. Steps n c (idle i k p q)) g run))

add_assoc : (a b n : ℕ) → a + b + n ≡ a + (b + n)
add_assoc a b n = omega arith

module _ {A B : Type 0} (i j : ℕ) where
  -- The same configuration after `i` and `j` bytes.
  abbrev later : Config A B → Config A B
  later c = record c {
    left_sent = i + c.left_sent;
    right_sent = j + c.right_sent;
    left_received = j + c.left_received;
    right_received = i + c.right_received;
  }

  later-Step : {c d : Config A B} → Step c d → Step (later c) (later d)
  later-Step {c} (left_sends bs p h) =
      subst
        (λ n.
          Step (later c)
            (record (later c) { left = p; to_right = c.to_right ++ bs; left_sent = n }))
        (add_assoc i c.left_sent (length bs)) (left_sends bs p h)
  later-Step {c} (right_sends bs p h) =
      subst
        (λ n.
          Step (later c)
            (record (later c) { right = p; to_left = c.to_left ++ bs; right_sent = n }))
        (add_assoc j c.right_sent (length bs)) (right_sends bs p h)
  later-Step {c} (left_receives n k h lt) =
      subst
        (λ m. Step (later c) (record (later c) {
          left = k (take n c.to_left);
          to_left = drop n c.to_left;
          left_received = m;
        }))
        (add_assoc j c.left_received n) (left_receives n k h lt)
  later-Step {c} (right_receives n k h lt) =
      subst
        (λ m. Step (later c) (record (later c) {
          right = k (take n c.to_right);
          to_right = drop n c.to_right;
          right_received = m;
        }))
        (add_assoc i c.right_received n) (right_receives n k h lt)

  later-Steps : {n : ℕ} {c d : Config A B} → Steps n c d → Steps n (later c) (later d)
  later-Steps here = here
  later-Steps (next s rest) = next (later-Step s) (later-Steps rest)

  -- A run from the start, as a later part of a run.
  pub run_later :
      (n l r : ℕ) (p p' : Proc A) (q q' : Proc B)
      → Steps n (start p q) (idle l r p' q')
      → Steps n (idle i j p q) (idle (i + l) (j + r) p' q')
  run_later n l r p p' q q' run =
      let left : i + 0 ≡ i = omega arith in
      let right : j + 0 ≡ j = omega arith in
      subst (λ m. Steps n (idle i m p q) (idle (i + l) (j + r) p' q')) right
        (subst (λ m. Steps n (idle m (j + 0) p q) (idle (i + l) (j + r) p' q')) left
          (later-Steps run))
