-- ===== src/Examples/Toy.antt =====
-- A generator that counts and a hash that multiplies, to run the protocols on.
use petace_verse.Common.{
  ℕ, zero, suc, ◌+◌, ◌*◌, ◌/◌, ◌^◌, ◌<◌, List, All, length, get_or, ◌≡◌, refl, arith, ◌==◌,
  if◌then◌else◌, tabulate, length-tabulate, get_or-tabulate,
}
use petace_verse.Util.Memory.{Block, bit_at}
use petace_verse.Util.Bytes.{IsByte, to_bytes, of_bytes, length-to_bytes}
use petace_verse.Crypto.{Crypto, IsCrypto}

abbrev pub toy : Crypto
toy = record {
  Prng = ℕ;
  create = of_bytes;
  generate = λ p n. (to_bytes n (p * 1_000_003 + 17), p + 1);
  compute = λ bytes n. to_bytes n (of_bytes bytes * 7 + 3);
}

pub to_bytes-IsByte : (n b : ℕ) → All IsByte (to_bytes n b)
unfolding to_bytes
to_bytes-IsByte zero b = tt
to_bytes-IsByte (suc n) b = (omega arith, to_bytes-IsByte n (b / 2 ^ 8))

pub toy-IsCrypto : IsCrypto toy
toy-IsCrypto = record {
  generate_bytes = λ p n. to_bytes-IsByte n (p * 1_000_003 + 17);
  compute_bytes = λ bytes n. to_bytes-IsByte n (of_bytes bytes * 7 + 3);
  compute_length = λ bytes n. length-to_bytes n (of_bytes bytes * 7 + 3);
}

-- The base transfers: two messages each, and the one that the base choices pick.
abbrev pub base_sent : ℕ → List (Block × Block)
base_sent n = tabulate n 0 (λ k. (2 * k, 2 * k + 1))

abbrev pub base_received : List Block → ℕ → List Block
base_received choices n = tabulate n 0 (λ k. if bit_at choices k == 0 then 2 * k else 2 * k + 1)

pub base_transfer :
    (choices : List Block) (n k : ℕ)
    → k < n
    → get_or (base_received choices n) k 0 ≡ (
        if bit_at choices k == 0
        then (get_or (base_sent n) k (0, 0)).0
        else (get_or (base_sent n) k (0, 0)).1)
base_transfer choices n k h =
    rw
      (
        get_or-tabulate n 0 k (λ j. if bit_at choices j == 0 then 2 * j else 2 * j + 1) 0 h,
        get_or-tabulate {A = Block × Block} n 0 k (λ j. (2 * j, 2 * j + 1)) (0, 0) h,
        zero_add k,
      )
      refl
  where
    zero_add : (m : ℕ) → 0 + m ≡ m
    zero_add m = omega arith

pub length-base_sent : (n : ℕ) → length (base_sent n) ≡ n
length-base_sent n = length-tabulate {A = Block × Block} n 0 (λ k. (2 * k, 2 * k + 1))

pub length-base_received : (choices : List Block) (n : ℕ) → length (base_received choices n) ≡ n
length-base_received choices n =
    length-tabulate n 0 (λ k. if bit_at choices k == 0 then 2 * k else 2 * k + 1)
