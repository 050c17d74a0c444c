-- ===== src/Net/Schedules.antt =====
-- Runs as seen from one run that ends with results: how other runs of the same programs go on.
use petace_verse.Common.{ℕ, ◌+◌, ◌≡◌, refl, sym, subst, ◌⊎◌, inl, inr}
use petace_verse.Net.{Proc, done, throw, crash}
use petace_verse.Net.Run.{
  Config, Step, left_sends, right_sends, left_receives, right_receives, Steps, here, next, idle,
}
use petace_verse.Net.Confluence.{Steps-confluent}

-- The party has neither thrown nor crashed.
abbrev pub IsUnfailed : {A : Type 0} → Proc A → Type 0
IsUnfailed (throw e) = ⊥
IsUnfailed crash = ⊥
IsUnfailed p = Unit

module _ {A B : Type 0} where
  before-IsUnfailed :
      {n : ℕ} {c d : Config A B}
      → Steps n c d
      → IsUnfailed d.left
      → IsUnfailed d.right
      → IsUnfailed c.left × IsUnfailed c.right
  before-IsUnfailed here l r = (l, r)
  before-IsUnfailed (next (left_sends bs p h) rest) l r =
      (subst IsUnfailed (sym h) tt, (before-IsUnfailed rest l r).1)
  before-IsUnfailed (next (right_sends bs p h) rest) l r =
      ((before-IsUnfailed rest l r).0, subst IsUnfailed (sym h) tt)
  before-IsUnfailed (next (left_receives n k h lt) rest) l r =
      (subst IsUnfailed (sym h) tt, (before-IsUnfailed rest l r).1)
  before-IsUnfailed (next (right_receives n k h lt) rest) l r =
      ((before-IsUnfailed rest l r).0, subst IsUnfailed (sym h) tt)

  moves : {k : ℕ} {e d : Config A B} → Steps k e d → (k ≡ 0) ⊎ ((f : Config A B) × Step e f)
  moves here = inl refl
  moves (next {d = f} s rest) = inr (f, s)

  -- A configuration `e` that `m` steps of a run of `n` steps led to.
  pub record OnTheWay (n m : ℕ) (e d : Config A B) : Type 0 where
    pub left_to_do : ℕ
    pub counted : m + left_to_do ≡ n
    pub completion : Steps left_to_do e d
    pub unfailed : IsUnfailed e.left × IsUnfailed e.right
    pub not_stuck : (left_to_do ≡ 0) ⊎ ((f : Config A B) × Step e f)

  pub every_schedule :
      (n l r : ℕ) (c : Config A B) (a : A) (b : B)
      → Steps n c (idle l r (done a) (done b))
      → (m : ℕ) (e : Config A B) → Steps m c e
      → OnTheWay n m e (idle l r (done a) (done b))
  every_schedule n l r c a b run m e steps =
      let t =
        Steps-confluent run
          (record { left_result = a; right_result = b; left_done = refl; right_done = refl })
          steps in
      record {
        left_to_do = t.0;
        counted = t.1;
        completion = t.2;
        unfailed = before-IsUnfailed t.2 tt tt;
        not_stuck = moves t.2;
      }

  -- A run, which every other order of the steps can be completed to.
  abbrev pub AlwaysEnds : ℕ → Config A B → Config A B → Type 0
  AlwaysEnds n c d = Steps n c d × ((m : ℕ) (e : Config A B) → Steps m c e → OnTheWay n m e d)

  pub run-AlwaysEnds :
      (n l r : ℕ) (c : Config A B) (a : A) (b : B)
      → Steps n c (idle l r (done a) (done b))
      → AlwaysEnds n c (idle l r (done a) (done b))
  run-AlwaysEnds n l r c a b run = (run, every_schedule n l r c a b run)
