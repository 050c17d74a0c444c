-- ===== src/Net/Confluence.antt =====
-- Different orders of the steps of two parties, and how they join.
use petace_verse.Common.{
  ◌+◌, ℕ, ◌≤◌, ◌≡◌, refl, sym, ◌∙◌, List, [], ◌∷◌, ◌++◌, length, take, drop, ◌⊎◌, inl, inr, arith,
  ap, ap₂, subst, length-append, zero, suc,
}
use petace_verse.Net.{Proc, done, send_data, recv_data}
use petace_verse.Net.Run.{
  Config, Step, left_sends, right_sends, left_receives, right_receives, Steps, here, next,
}

take-append_left : (n : ℕ) (xs ys : List ℕ) → n ≤ length xs → take n (xs ++ ys) ≡ take n xs
take-append_left zero xs ys h = refl
take-append_left (suc n) [] ys h = absurd (omega arith)
take-append_left (suc n) (x ∷ xs) ys h = ap (◌∷◌ x) (take-append_left n xs ys (omega arith))

drop-append_left : (n : ℕ) (xs ys : List ℕ) → n ≤ length xs → drop n (xs ++ ys) ≡ drop n xs ++ ys
drop-append_left zero xs ys h = refl
drop-append_left (suc n) [] ys h = absurd (omega arith)
drop-append_left (suc n) (x ∷ xs) ys h = drop-append_left n xs ys (omega arith)

same_send :
    {C : Type 0} (bs cs : List ℕ) (p q : Proc C)
    → send_data bs p ≡ send_data cs q
    → (p ≡ q) × (bs ≡ cs)
same_send bs cs p q e = (cc, cc)

same_recv :
    {C : Type 0} (n m : ℕ) (k l : List ℕ → Proc C)
    → recv_data n k ≡ recv_data m l
    → (k ≡ l) × (n ≡ m)
same_recv n m k l e = (cc, cc)

module _ {A B : Type 0} where
  -- Two steps from one configuration are the same, or can be made one after the other.
  Joins : Config A B → Config A B → Config A B → Type 0
  Joins c d e = (d ≡ e) ⊎ ((f : Config A B) × Step d f × Step e f)

  -- A receipt that was possible before more bytes arrived gives the same bytes after.
  late_left_receipt :
      (c : Config A B) (n : ℕ) (k : List ℕ → Proc A) (bs : List ℕ) (q : Proc B)
      → c.left ≡ recv_data n k
      → n ≤ length c.to_left
      → Step
          (record c { right = q; to_left = c.to_left ++ bs; right_sent = c.right_sent + length bs })
          (record c {
            left = k (take n c.to_left);
            right = q;
            to_left = drop n c.to_left ++ bs;
            left_received = c.left_received + n;
            right_sent = c.right_sent + length bs;
          })
  late_left_receipt c n k bs q h lt =
      subst
        (Step (record c {
          right = q;
          to_left = c.to_left ++ bs;
          right_sent = c.right_sent + length bs;
        }))
        (ap₂
          (λ xs ys. record c {
            left = k xs;
            right = q;
            to_left = ys;
            left_received = c.left_received + n;
            right_sent = c.right_sent + length bs;
          })
          (take-append_left n c.to_left bs lt) (drop-append_left n c.to_left bs lt))
        (left_receives n k h (omega (arith, length-append c.to_left bs)))

  late_right_receipt :
      (c : Config A B) (n : ℕ) (k : List ℕ → Proc B) (bs : List ℕ) (p : Proc A)
      → c.right ≡ recv_data n k
      → n ≤ length c.to_right
      → Step
          (record c { left = p; to_right = c.to_right ++ bs; left_sent = c.left_sent + length bs })
          (record c {
            left = p;
            right = k (take n c.to_right);
            to_right = drop n c.to_right ++ bs;
            right_received = c.right_received + n;
            left_sent = c.left_sent + length bs;
          })
  late_right_receipt c n k bs p h lt =
      subst
        (Step
          (record c { left = p; to_right = c.to_right ++ bs; left_sent = c.left_sent + length bs }))
        (ap₂
          (λ xs ys. record c {
            left = p;
            right = k xs;
            to_right = ys;
            right_received = c.right_received + n;
            left_sent = c.left_sent + length bs;
          })
          (take-append_left n c.to_right bs lt) (drop-append_left n c.to_right bs lt))
        (right_receives n k h (omega (arith, length-append c.to_right bs)))

  diamond : {c d e : Config A B} → Step c d → Step c e → Joins c d e
  unfolding Joins
  diamond {c} (left_sends bs p h) (left_sends cs q k) =
      let r = same_send bs cs p q (sym h ∙ k) in
      inl (
        ap₂
          (λ t us. record c {
            left = t;
            to_right = c.to_right ++ us;
            left_sent = c.left_sent + length us;
          })
          r.0 r.1)
  diamond {c} (left_sends bs p h) (right_sends cs q k) =
      inr (_, right_sends cs q k, left_sends bs p h)
  diamond {c} (left_sends bs p h) (left_receives n l k lt) = cc
  diamond {c} (left_sends bs p h) (right_receives n l k lt) =
      inr (_, late_right_receipt c n l bs p k lt, left_sends bs p h)
  diamond {c} (right_sends bs p h) (left_sends cs q k) =
      inr (_, left_sends cs q k, right_sends bs p h)
  diamond {c} (right_sends bs p h) (right_sends cs q k) =
      let r = same_send bs cs p q (sym h ∙ k) in
      inl (
        ap₂
          (λ t us. record c {
            right = t;
            to_left = c.to_left ++ us;
            right_sent = c.right_sent + length us;
          })
          r.0 r.1)
  diamond {c} (right_sends bs p h) (left_receives n l k lt) =
      inr (_, late_left_receipt c n l bs p k lt, right_sends bs p h)
  diamond {c} (right_sends bs p h) (right_receives n l k lt) = cc
  diamond {c} (left_receives m j h le) (left_sends cs q k) = cc
  diamond {c} (left_receives m j h le) (right_sends cs q k) =
      inr (_, right_sends cs q k, late_left_receipt c m j cs q h le)
  diamond {c} (left_receives m j h le) (left_receives n l k lt) =
      let r = same_recv m n j l (sym h ∙ k) in
      inl (
        ap₂
          (λ (t : List ℕ → Proc A) u. record c {
            left = t (take u c.to_left);
            to_left = drop u c.to_left;
            left_received = c.left_received + u;
          })
          r.0 r.1)
  diamond {c} (left_receives m j h le) (right_receives n l k lt) =
      inr (_, right_receives n l k lt, left_receives m j h le)
  diamond {c} (right_receives m j h le) (left_sends cs q k) =
      inr (_, left_sends cs q k, late_right_receipt c m j cs q h le)
  diamond {c} (right_receives m j h le) (right_sends cs q k) = cc
  diamond {c} (right_receives m j h le) (left_receives n l k lt) =
      inr (_, left_receives n l k lt, right_receives m j h le)
  diamond {c} (right_receives m j h le) (right_receives n l k lt) =
      let r = same_recv m n j l (sym h ∙ k) in
      inl (
        ap₂
          (λ (t : List ℕ → Proc B) u. record c {
            right = t (take u c.to_right);
            to_right = drop u c.to_right;
            right_received = c.right_received + u;
          })
          r.0 r.1)

  -- Both parties have ended by a result.
  pub record IsFinal (c : Config A B) : Type 0 where
    pub left_result : A
    pub right_result : B
    pub left_done : c.left ≡ done left_result
    pub right_done : c.right ≡ done right_result

  final_stuck : {c d : Config A B} → IsFinal c → ¬ Step c d
  final_stuck w (left_sends bs p h) = cc (w.left_done)
  final_stuck w (right_sends bs p h) = cc (w.right_done)
  final_stuck w (left_receives n k h lt) = cc (w.left_done)
  final_stuck w (right_receives n k h lt) = cc (w.right_done)

  strip :
      {n : ℕ} {c d e : Config A B}
      → Steps n c d
      → IsFinal d
      → Step c e
      → (m : ℕ) × (n ≡ suc m) × Steps m e d
  unfolding Joins
  strip here w t = absurd (final_stuck w t)
  strip {d} {e} (next {n = m} {d = c'} s rest) w t = elim (diamond s t) [
    | inl same ↦ (m, refl, subst (λ x. Steps m x d) same rest)
    | inr (f, up, down) ↦
        let r = strip rest w up in (m, refl, subst (λ k. Steps k e d) (sym r.1) (next down r.2))
  ]

  completed :
      {m : ℕ} {d c e : Config A B}
      → Steps m c e
      → IsFinal d
      → (n : ℕ) → Steps n c d
      → (k : ℕ) × (m + k ≡ n) × Steps k e d
  completed here w n run = (n, omega arith, run)
  completed (next s rest) w n run =
      let first = strip run w s in
      let r = completed rest w first.0 first.2 in (r.0, omega (arith, first.1, r.1), r.2)

  -- If some schedule brings both parties to a result, then whatever schedule is followed, and
  -- however far, it can be completed, only to that same final configuration, and with as many
  -- steps as the first schedule has left.
  pub Steps-confluent :
      {n m : ℕ} {c d e : Config A B}
      → Steps n c d
      → IsFinal d
      → Steps m c e
      → (k : ℕ) × (m + k ≡ n) × Steps k e d
  Steps-confluent {n} run w steps = completed steps w n run
