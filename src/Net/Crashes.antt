-- ===== src/Net/Crashes.antt =====
-- Processes that end in undefined behaviour, whatever bytes they receive.
use petace_verse.Common.{
  ℕ, ◌%◌, ◌*◌, ◌^◌, ◌≡◌, List, length, Outcome, ok, err, fault, ltb, Bool-cases, inl, inr,
}
use petace_verse.Common.Faults.{IsUnthrown}
use petace_verse.Util.Memory.{Block}
use petace_verse.Util.Bytes.{bytes_of_blocks}
use petace_verse.Net.{Proc, done, throw, crash, send_data, recv_data, lift, ◌>>=◌, ◌>>◌, send_block}

-- The process neither returns nor throws.
abbrev pub Crashes {ℓ} : {A : Type ℓ} → Proc A → Type 0
Crashes (done a) = ⊥
Crashes (throw e) = ⊥
Crashes crash = Unit
Crashes (send_data bs p) = Crashes p
Crashes (recv_data n k) = (bs : List ℕ) → Crashes (k bs)

pub lift-Crashes {ℓ κ} :
    {A : Type ℓ} {B : Type κ} (m : Outcome A) (f : A → Proc B)
    → IsUnthrown m
    → ((a : A) → Crashes (f a))
    → Crashes (lift m >>= f)
lift-Crashes (ok a) f h k = k a
lift-Crashes (err e) f h k = elim h [ ]
lift-Crashes fault f h k = tt

pub fault-Crashes {ℓ κ} :
    {A : Type ℓ} {B : Type κ} (m : Outcome A) (f : A → Proc B) → m ≡ fault → Crashes (lift m >>= f)
fault-Crashes m f e = rw e tt

pub send_block-Crashes {ℓ} :
    {A : Type ℓ} (blocks : List Block) (n : ℕ) (p : Proc A)
    → Crashes p
    → Crashes (send_block blocks n >> p)
unfolding send_block
send_block-Crashes blocks n p h =
    elim (Bool-cases (ltb (length (bytes_of_blocks blocks)) (n * 16 % 2 ^ 64))) [
      | inl z ↦ rw z tt
      | inr z ↦ rw z h
    ]
