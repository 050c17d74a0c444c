-- ===== src/Common/Loops.antt =====
-- Loops over an index range whose body may throw or fault, with their rules of total correctness.
use Prim.Native.Nat.{ℕ, zero, suc, ◌+◌, ◌≤◌, ◌<◌}
use mathlib.Core.Path.{◌≡◌, refl, subst}
use mathlib.Core.List.{List, [], ◌∷◌}
use native.Mathlib.Omega.{arith}
use petace_verse.Common.Lists.{length, get_or}
use petace_verse.Common.Outcomes.{Outcome, ok, err, fault, ◌>>=◌, Returns}

-- for (k = i; k < i + n; k++) s = body k s
unfoldable pub for_range {ℓ} : {S : Type ℓ} → ℕ → ℕ → (ℕ → S → Outcome S) → S → Outcome S
for_range zero i body s = ok s
for_range (suc n) i body s = body i s >>= for_range n (i + 1) body

-- A fresh vector of `n` entries, filled in order: entry `k` is the value of `g (i + k)`.
unfoldable pub build {ℓ} : {A : Type ℓ} → ℕ → ℕ → (ℕ → Outcome A) → Outcome (List A)
build zero i g = ok []
build (suc n) i g = do a ← g i; rest ← build n (i + 1) g; ok (a ∷ rest)

-- The same with a state that the rounds pass on.
unfoldable pub build_with {ℓ κ} :
    {A : Type ℓ} {S : Type κ} → ℕ → ℕ → (ℕ → S → Outcome (A × S)) → S → Outcome (List A × S)
build_with zero i g s = ok ([], s)
build_with (suc n) i g s = do
  r ← g i s
  rest ← build_with n (i + 1) g r.1
  ok (r.0 ∷ rest.0, rest.1)

pub Returns-bind {ℓ κ} :
    {A : Type ℓ} {B : Type κ} (Q : A → Type 0) (P : B → Type 0) (m : Outcome A) (f : A → Outcome B)
    → Returns Q m
    → ((a : A) → Q a → Returns P (f a))
    → Returns P (m >>= f)
Returns-bind Q P (ok a) f h k = k a h
Returns-bind Q P (err e) f h k = elim h [ ]
Returns-bind Q P fault f h k = elim h [ ]

pub Returns-mono {ℓ} :
    {A : Type ℓ} (Q P : A → Type 0) (m : Outcome A)
    → Returns Q m
    → ((a : A) → Q a → P a)
    → Returns P m
Returns-mono Q P (ok a) h k = k a h
Returns-mono Q P (err e) h k = elim h [ ]
Returns-mono Q P fault h k = elim h [ ]

-- What returns has a value, and the value has the property.
pub Returns-value {ℓ} :
    {A : Type ℓ} (P : A → Type 0) (m : Outcome A) → Returns P m → (a : A) × (m ≡ ok a) × P a
Returns-value P (ok a) h = (a, refl, h)
Returns-value P (err e) h = elim h [ ]
Returns-value P fault h = elim h [ ]

-- An invariant indexed by the loop variable holds when the loop ends.
pub for_range-Returns {ℓ} :
    {S : Type ℓ} (P : ℕ → S → Type 0) (body : ℕ → S → Outcome S) (n i j : ℕ) (s : S)
    → i + n ≡ j
    → ((k : ℕ) (t : S) → i ≤ k → k < j → P k t → Returns (P (k + 1)) (body k t))
    → P i s
    → Returns (P j) (for_range n i body s)
unfolding for_range
for_range-Returns P body zero i j s e keep h =
    let e' : i ≡ j = omega arith in subst (λ k. P k s) e' h
for_range-Returns P body (suc n) i j s e keep h =
    Returns-bind (P (i + 1)) (P j) (body i s) (for_range n (i + 1) body)
      (keep i s (omega arith) (omega arith) h)
      λ t q.
        for_range-Returns P body n (i + 1) j t (omega arith) (λ k u p r. keep k u (omega arith) r) q

-- A vector of `n` entries, each with its property.
abbrev pub Built {ℓ} : {A : Type ℓ} → ℕ → ℕ → (ℕ → A → Type 0) → List A → Type 0
Built zero i P [] = Unit
Built zero i P (x ∷ xs) = ⊥
Built (suc n) i P [] = ⊥
Built (suc n) i P (x ∷ xs) = P i x × Built n (i + 1) P xs

pub build-Returns {ℓ} :
    {A : Type ℓ} (P : ℕ → A → Type 0) (g : ℕ → Outcome A) (n i : ℕ)
    → ((k : ℕ) → i ≤ k → k < i + n → Returns (P k) (g k))
    → Returns (Built n i P) (build n i g)
unfolding build
build-Returns P g zero i h = tt
build-Returns P g (suc n) i h =
    Returns-bind (P i) (Built (suc n) i P) (g i) _ (h i (omega arith) (omega arith)) λ a p.
      Returns-bind (Built n (i + 1) P) (Built (suc n) i P) (build n (i + 1) g) _
        (build-Returns P g n (i + 1) (λ k q r. h k (omega arith) (omega arith))) λ rest q. (p, q)

pub length-Built {ℓ} :
    {A : Type ℓ} (P : ℕ → A → Type 0) (n i : ℕ) (xs : List A) → Built n i P xs → length xs ≡ n
length-Built P zero i [] h = refl
length-Built P zero i (x ∷ xs) h = elim h [ ]
length-Built P (suc n) i [] h = elim h [ ]
length-Built P (suc n) i (x ∷ xs) h = omega (arith, length-Built P n (i + 1) xs h.1)

pub Built-get_or {ℓ} :
    {A : Type ℓ} (P : ℕ → A → Type 0) (n i : ℕ) (xs : List A) (k j : ℕ) (d : A)
    → Built n i P xs
    → k < n
    → i + k ≡ j
    → P j (get_or xs k d)
Built-get_or P zero i xs k j d h lt e = absurd (omega arith)
Built-get_or P (suc n) i [] k j d h lt e = elim h [ ]
Built-get_or P (suc n) i (x ∷ xs) zero j d h lt e =
    let e' : i ≡ j = omega arith in subst (λ t. P t x) e' h.0
Built-get_or P (suc n) i (x ∷ xs) (suc k) j d h lt e =
    Built-get_or P n (i + 1) xs k j d h.1 (omega arith) (omega arith)

-- The entries of a vector that a loop built, one property for each index.
pub build_entries {ℓ} :
    {A : Type ℓ} (d : A) (P : ℕ → A → Type 0) (g : ℕ → Outcome A) (n : ℕ)
    → ((k : ℕ) → k < n → Returns (P k) (g k))
    → (v : List A) × (build n 0 g ≡ ok v) × (length v ≡ n) × ((k : ℕ) → k < n → P k (get_or v k d))
build_entries d P g n h =
    let r =
      Returns-value (Built n 0 P) (build n 0 g)
        (build-Returns P g n 0 (λ k _ lt. h k (omega arith))) in
    (
      r.0,
      r.1,
      length-Built P n 0 r.0 r.2,
      λ k lt. Built-get_or P n 0 r.0 k k d r.2 lt (omega arith),
    )

build_with-Returns {ℓ κ} :
    {A : Type ℓ} {S : Type κ} (I : S → Type 0) (P : ℕ → A → Type 0) (g : ℕ → S → Outcome (A × S))
    (n i : ℕ) (s : S)
    → ((k : ℕ) (t : S) → i ≤ k → k < i + n → I t → Returns (λ r. P k r.0 × I r.1) (g k t))
    → I s
    → Returns (λ r. Built n i P r.0 × I r.1) (build_with n i g s)
unfolding build_with
build_with-Returns I P g zero i s h here = (tt, here)
build_with-Returns I P g (suc n) i s h here =
    Returns-bind (λ r. P i r.0 × I r.1) _ (g i s) _ (h i s (omega arith) (omega arith) here)
      λ r p.
        Returns-bind (λ t. Built n (i + 1) P t.0 × I t.1) _ (build_with n (i + 1) g r.1) _
          (build_with-Returns I P g n (i + 1) r.1 (λ k t q lt. h k t (omega arith) (omega arith))
            p.1)
          λ rest q. ((p.0, q.0), q.1)

-- The entries, and the state that the last round leaves.
pub build_with_entries {ℓ κ} :
    {A : Type ℓ} {S : Type κ} (d : A) (I : S → Type 0) (P : ℕ → A → Type 0)
    (g : ℕ → S → Outcome (A × S)) (n : ℕ) (s : S)
    → ((k : ℕ) (t : S) → k < n → I t → Returns (λ r. P k r.0 × I r.1) (g k t))
    → I s
    → (v : List A) × (t : S) × (build_with n 0 g s ≡ ok (v, t))
      × (length v ≡ n)
      × ((k : ℕ) → k < n → P k (get_or v k d))
      × I t
build_with_entries d I P g n s h here =
    let r =
      Returns-value (λ r. Built n 0 P r.0 × I r.1) (build_with n 0 g s)
        (build_with-Returns I P g n 0 s (λ k t _ lt. h k t (omega arith)) here) in
    (
      r.0.0,
      r.0.1,
      r.1,
      length-Built P n 0 r.0.0 r.2.0,
      λ k lt. Built-get_or P n 0 r.0.0 k k d r.2.0 lt (omega arith),
      r.2.1,
    )
