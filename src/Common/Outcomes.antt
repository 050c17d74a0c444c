-- ===== src/Common/Outcomes.antt =====
-- What a stretch of C++ code comes to: a value, an exception, or undefined behaviour.
use Prim.Native.Nat.{ℕ, zero, suc, ◌≤◌, ◌<◌}
use mathlib.Core.Path.{◌≡◌, refl}
use mathlib.Core.List.{List, [], ◌∷◌}
use native.Mathlib.Omega.{arith}
use petace_verse.Common.Lists.{length, get_or, set}
use petace_verse.Common.Tests.{ltb, if◌then◌else◌, lt→ltb}

-- The exceptions of the sources, one for each message, and that of a network that opens no
-- connection.
pub data Error : Type 0 where
  iknp_base_size : Error
  base_size : Error
  ext_size : Error
  transpose_size : Error
  not_registered : Error
  different_sizes : Error
  not_two : Error
  no_connection : Error
  wrong_parameters : Error

-- `fault` stands for undefined behaviour: an access out of range or a division by zero.
pub data Outcome {ℓ} (A : Type ℓ) : Type ℓ where
  ok : A → Outcome A
  err : Error → Outcome A
  fault : Outcome A

infixl 5 ◌>>=◌ ◌>>◌
abbrev pub ◌>>=◌ {ℓ κ} : {A : Type ℓ} {B : Type κ} → Outcome A → (A → Outcome B) → Outcome B
ok a >>= f = f a
err e >>= f = err e
fault >>= f = fault

abbrev pub ◌>>◌ {ℓ} : {B : Type ℓ} → Outcome (Unit {0}) → Outcome B → Outcome B
m >> k = m >>= λ _. k

-- `v[i]` and `v[i] = x` on a vector.
module _ {ℓ} {A : Type ℓ} where
  unfoldable pub load : List A → ℕ → Outcome A
  load [] i = fault
  load (x ∷ xs) zero = ok x
  load (x ∷ xs) (suc i) = load xs i

  unfoldable pub store : List A → ℕ → A → Outcome (List A)
  store xs i v = if ltb i (length xs) then ok (set xs i v) else fault

  pub load-get_or : (xs : List A) (i : ℕ) (d : A) → i < length xs → load xs i ≡ ok (get_or xs i d)
  unfolding load
  load-get_or [] i d h = absurd (omega arith)
  load-get_or (x ∷ xs) zero d h = refl
  load-get_or (x ∷ xs) (suc i) d h = load-get_or xs i d (omega arith)

  pub load_fault : (xs : List A) (i : ℕ) → length xs ≤ i → load xs i ≡ fault
  unfolding load
  load_fault [] i h = refl
  load_fault (x ∷ xs) zero h = absurd (omega arith)
  load_fault (x ∷ xs) (suc i) h = load_fault xs i (omega arith)

  pub store-set : (xs : List A) (i : ℕ) (v : A) → i < length xs → store xs i v ≡ ok (set xs i v)
  unfolding store
  store-set xs i v h = rw (lt→ltb i (length xs) h)

-- A normal return whose value has the property.
abbrev pub Returns {ℓ} : {A : Type ℓ} → (A → Type 0) → Outcome A → Type 0
Returns P (ok a) = P a
Returns P (err e) = ⊥
Returns P fault = ⊥
