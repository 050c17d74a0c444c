-- ===== src/Net/Gives.antt =====
-- What holds of the result of a process if there is one, whatever bytes it receives.
use petace_verse.Common.{ℕ, List, Outcome, ok, err, fault}
use petace_verse.Common.Holds.{Holds}
use petace_verse.Net.{Proc, done, throw, crash, send_data, recv_data, lift, ◌>>=◌}

abbrev pub Gives {ℓ} : {A : Type ℓ} → (A → Type 0) → Proc A → Type 0
Gives P (done a) = P a
Gives P (throw e) = Unit
Gives P crash = Unit
Gives P (send_data bs p) = Gives P p
Gives P (recv_data n k) = (bs : List ℕ) → Gives P (k bs)

-- After a part of which nothing is known.
pub Gives-then {ℓ κ} :
    {A : Type ℓ} {B : Type κ} (P : B → Type 0) (p : Proc A) (f : A → Proc B)
    → ((a : A) → Gives P (f a))
    → Gives P (p >>= f)
Gives-then P (done a) f k = k a
Gives-then P (throw e) f k = tt
Gives-then P crash f k = tt
Gives-then P (send_data bs p) f k = Gives-then P p f k
Gives-then P (recv_data n l) f k = λ bs. Gives-then P (l bs) f k

-- After code between two calls of the network.
pub lift-Gives {ℓ κ} :
    {A : Type ℓ} {B : Type κ} (Q : A → Type 0) (P : B → Type 0) (m : Outcome A) (f : A → Proc B)
    → Holds Q m
    → ((a : A) → Q a → Gives P (f a))
    → Gives P (lift m >>= f)
lift-Gives Q P (ok a) f h k = k a h
lift-Gives Q P (err e) f h k = tt
lift-Gives Q P fault f h k = tt
