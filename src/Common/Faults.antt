-- ===== src/Common/Faults.antt =====
-- Code that throws nothing, and code that ends in undefined behaviour.
use petace_verse.Common.{
  ℕ, zero, suc, ◌+◌, ◌≤◌, ◌<◌, ◌≡◌, refl, arith, List, [], ◌∷◌, length, Outcome, ok, err, fault,
  ◌>>=◌, load, store, build, for_range, ltb, Bool-cases, inl, inr,
}
use native.Mathlib.Decide.{dec_lt}
use petace_verse.Common.Holds.{Holds, whatever}

abbrev pub IsUnthrown {ℓ} : {A : Type ℓ} → Outcome A → Type 0
IsUnthrown (ok a) = Unit
IsUnthrown (err e) = ⊥
IsUnthrown fault = Unit

pub IsUnthrown-then {ℓ κ} :
    {A : Type ℓ} {B : Type κ} (m : Outcome A) (f : A → Outcome B)
    → IsUnthrown m
    → ((a : A) → IsUnthrown (f a))
    → IsUnthrown (m >>= f)
IsUnthrown-then (ok a) f h k = k a
IsUnthrown-then (err e) f h k = elim h [ ]
IsUnthrown-then fault f h k = tt

pub load-IsUnthrown {ℓ} : {A : Type ℓ} (xs : List A) (i : ℕ) → IsUnthrown (load xs i)
unfolding load
load-IsUnthrown [] i = tt
load-IsUnthrown (x ∷ xs) zero = tt
load-IsUnthrown (x ∷ xs) (suc i) = load-IsUnthrown xs i

pub store-IsUnthrown {ℓ} : {A : Type ℓ} (xs : List A) (i : ℕ) (v : A) → IsUnthrown (store xs i v)
unfolding store
store-IsUnthrown xs i v = elim (Bool-cases (ltb i (length xs))) [
  | inl z ↦ rw z tt
  | inr z ↦ rw z tt
]

pub build-IsUnthrown {ℓ} :
    {A : Type ℓ} (g : ℕ → Outcome A) (n i : ℕ)
    → ((k : ℕ) → IsUnthrown (g k))
    → IsUnthrown (build n i g)
unfolding build
build-IsUnthrown g zero i h = tt
build-IsUnthrown g (suc n) i h =
    IsUnthrown-then (g i) _ (h i)
      λ a. IsUnthrown-then (build n (i + 1) g) _ (build-IsUnthrown g n (i + 1) h) λ rest. tt

pub for_range-IsUnthrown {ℓ} :
    {S : Type ℓ} (body : ℕ → S → Outcome S) (n i : ℕ) (s : S)
    → ((k : ℕ) (t : S) → IsUnthrown (body k t))
    → IsUnthrown (for_range n i body s)
unfolding for_range
for_range-IsUnthrown body zero i s h = tt
for_range-IsUnthrown body (suc n) i s h =
    IsUnthrown-then (body i s) _ (h i s) (λ t. for_range-IsUnthrown body n (i + 1) t h)

-- Code that throws nothing, before code that faults on all that it may give.
pub then-fault {ℓ κ} :
    {A : Type ℓ} {B : Type κ} (Q : A → Type 0) (m : Outcome A) (f : A → Outcome B)
    → IsUnthrown m
    → Holds Q m
    → ((a : A) → Q a → f a ≡ fault)
    → m >>= f ≡ fault
then-fault Q (ok a) f h q k = k a q
then-fault Q (err e) f h q k = elim h [ ]
then-fault Q fault f h q k = refl

-- A loop with a round that faults, whatever the rounds before it leave.
pub for_range-fault {ℓ} :
    {S : Type ℓ} (body : ℕ → S → Outcome S) (n i k : ℕ) (s : S)
    → i ≤ k
    → k < i + n
    → ((j : ℕ) (t : S) → IsUnthrown (body j t))
    → ((t : S) → body k t ≡ fault)
    → for_range n i body s ≡ fault
unfolding for_range
for_range-fault body zero i k s p q h e = absurd (omega arith)
for_range-fault body (suc n) i k s p q h e = elim (dec_lt i k) [
  | yes lt ↦
      then-fault (λ t. Unit {0}) (body i s) (for_range n (i + 1) body) (h i s) (whatever (body i s))
        λ t u. for_range-fault body n (i + 1) k t (omega arith) (omega arith) h e
  | no ge ↦ let here : i ≡ k = omega arith in rw (here, e s) refl
]
