-- ===== src/Common/Holds.antt =====
-- What holds of a value if there is one: partial correctness.
use petace_verse.Common.{
  ℕ, zero, suc, ◌+◌, ◌≡◌, refl, ap, length, All, Outcome, ok, err, fault, ◌>>=◌, build, for_range,
}

abbrev pub Holds {ℓ} : {A : Type ℓ} → (A → Type 0) → Outcome A → Type 0
Holds P (ok a) = P a
Holds P (err e) = Unit
Holds P fault = Unit

pub Holds-bind {ℓ κ} :
    {A : Type ℓ} {B : Type κ} (Q : A → Type 0) (P : B → Type 0) (m : Outcome A) (f : A → Outcome B)
    → Holds Q m
    → ((a : A) → Q a → Holds P (f a))
    → Holds P (m >>= f)
Holds-bind Q P (ok a) f h k = k a h
Holds-bind Q P (err e) f h k = tt
Holds-bind Q P fault f h k = tt

-- The same, for a value of which nothing is known.
pub Holds-then {ℓ κ} :
    {A : Type ℓ} {B : Type κ} (P : B → Type 0) (m : Outcome A) (f : A → Outcome B)
    → ((a : A) → Holds P (f a))
    → Holds P (m >>= f)
Holds-then P (ok a) f k = k a
Holds-then P (err e) f k = tt
Holds-then P fault f k = tt

-- `n` entries, each with its property.
pub build-Holds {ℓ} :
    {A : Type ℓ} (P : A → Type 0) (g : ℕ → Outcome A) (n i : ℕ)
    → ((k : ℕ) → Holds P (g k))
    → Holds (λ xs. (length xs ≡ n) × All P xs) (build n i g)
unfolding build
build-Holds P g zero i h = (refl, tt)
build-Holds P g (suc n) i h =
    Holds-bind P (λ xs. (length xs ≡ suc n) × All P xs) (g i) _ (h i)
      λ a p.
        Holds-bind (λ xs. (length xs ≡ n) × All P xs) (λ xs. (length xs ≡ suc n) × All P xs)
          (build n (i + 1) g) _ (build-Holds P g n (i + 1) h) λ rest q. (ap suc q.0, (p, q.1))

-- Of what a loop ends with, if every round gives it and the loop starts with it.
pub for_range-Holds {ℓ} :
    {S : Type ℓ} (P : S → Type 0) (body : ℕ → S → Outcome S) (n i : ℕ) (s : S)
    → ((k : ℕ) (t : S) → Holds P (body k t))
    → P s
    → Holds P (for_range n i body s)
unfolding for_range
for_range-Holds P body zero i s h p = p
for_range-Holds P body (suc n) i s h p =
    Holds-bind P P (body i s) (for_range n (i + 1) body) (h i s)
      λ t q. for_range-Holds P body n (i + 1) t h q

pub whatever {ℓ} : {A : Type ℓ} (m : Outcome A) → Holds (λ a. Unit {0}) m
whatever (ok a) = tt
whatever (err e) = tt
whatever fault = tt
