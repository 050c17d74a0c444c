-- ===== src/Common/Bits.antt =====
-- The binary digits of a number: exclusive or, conjunction, and concatenation of fields.
mod Step
use Step.{bit_xor_step, bit_and_step}
use native.Mathlib.Nat.{
  pow-suc, pow-zero, one-le-pow, div-div-eq-div-mul, div-one, pow-succ', mul_assoc, div-add-mod',
}
use Prim.Native.Nat.{ℕ, zero, suc, ◌+◌, ◌-◌, ◌*◌, ◌/◌, ◌%◌, ◌^◌, ◌≤◌, ◌<◌, bit_and, bit_xor, min}
use mathlib.Core.Path.{◌≡◌, refl, sym, ap, ◌∙◌}
use mathlib.Core.Logic.{◌⊎◌, inl, inr}
use native.Mathlib.Omega.{arith}

-- Digit `k` of `n`, counted from the lowest.
unfoldable pub bit : ℕ → ℕ → ℕ
bit n k = n / 2 ^ k % 2

pub bit-zero : (n : ℕ) → bit n 0 ≡ n % 2
unfolding bit
bit-zero n = omega arith

pub bit-suc : (n k : ℕ) → bit n (suc k) ≡ bit (n / 2) k
unfolding bit
bit-suc n k =
    ap (λ (t : ℕ). t % 2)
      (ap (λ (t : ℕ). n / t) (pow-succ' 2 k) ∙ sym (div-div-eq-div-mul n 2 (2 ^ k)))

pub bit-lt-two : (n k : ℕ) → bit n k < 2
unfolding bit
bit-lt-two n k = omega arith

pub bit-zero_left : (k : ℕ) → bit 0 k ≡ 0
bit-zero_left zero = rw bit-zero refl
bit-zero_left (suc k) = rw bit-suc (bit-zero_left k)

pub bit-bit_xor : (k a b : ℕ) → bit (bit_xor a b) k ≡ (bit a k + bit b k) % 2
bit-bit_xor zero a b = rw (bit-zero, bit-zero, bit-zero) (omega (arith, bit_xor_step a b))
bit-bit_xor (suc k) a b = rw (bit-suc, bit-suc, bit-suc) (rw half (bit-bit_xor k (a / 2) (b / 2)))
  where
    half : bit_xor a b / 2 ≡ bit_xor (a / 2) (b / 2)
    half = omega (arith, bit_xor_step a b)

pub bit-bit_and : (k a b : ℕ) → bit (bit_and a b) k ≡ min (bit a k) (bit b k)
bit-bit_and zero a b = rw (bit-zero, bit-zero, bit-zero) (omega (arith, bit_and_step a b))
bit-bit_and (suc k) a b = rw (bit-suc, bit-suc, bit-suc) (rw half (bit-bit_and k (a / 2) (b / 2)))
  where
    half : bit_and a b / 2 ≡ bit_and (a / 2) (b / 2)
    half = omega (arith, bit_and_step a b)

-- Numbers with the same digits are equal.
bit_ext_fuel : (n a b : ℕ) → a ≤ n → b ≤ n → ((k : ℕ) → bit a k ≡ bit b k) → a ≡ b
bit_ext_fuel zero a b p q h = omega arith
bit_ext_fuel (suc n) a b p q h =
    let lows : a % 2 ≡ b % 2 = sym (bit-zero a) ∙ h 0 ∙ bit-zero b in
    let halves : a / 2 ≡ b / 2 =
      bit_ext_fuel n (a / 2) (b / 2) (omega arith) (omega arith)
        (λ k. sym (bit-suc a k) ∙ h (suc k) ∙ bit-suc b k) in
    omega (arith, lows, halves)

pub bit_ext : (a b : ℕ) → ((k : ℕ) → bit a k ≡ bit b k) → a ≡ b
bit_ext a b = bit_ext_fuel (a + b) a b (omega arith) (omega arith)

-- A number below `2 ^ w` has no digit from `w` on.
pub bit_high : (w n k : ℕ) → n < 2 ^ w → w ≤ k → bit n k ≡ 0
bit_high zero n k h le = let e : n ≡ 0 = omega arith in rw e (bit-zero_left k)
bit_high (suc w) n zero h le = absurd (omega arith)
bit_high (suc w) n (suc k) h le =
    rw bit-suc (bit_high w (n / 2) k (omega (arith, pow-suc 2 w)) (omega arith))

-- Words of one width with the same digits below it are equal.
pub bit_ext_below :
    (w a b : ℕ) → a < 2 ^ w → b < 2 ^ w → ((k : ℕ) → k < w → bit a k ≡ bit b k) → a ≡ b
bit_ext_below zero a b p q h = omega arith
bit_ext_below (suc w) a b p q h =
    let lows : a % 2 ≡ b % 2 = sym (bit-zero a) ∙ h 0 (omega arith) ∙ bit-zero b in
    let halves : a / 2 ≡ b / 2 =
      bit_ext_below w (a / 2) (b / 2) (omega (arith, pow-suc 2 w)) (omega (arith, pow-suc 2 w))
        (λ k le. sym (bit-suc a k) ∙ h (suc k) (omega arith) ∙ bit-suc b k) in
    omega (arith, lows, halves)

pub bit_xor-lt : (w a b : ℕ) → a < 2 ^ w → b < 2 ^ w → bit_xor a b < 2 ^ w
bit_xor-lt zero a b p q =
    let e : a ≡ 0 = omega arith in let f : b ≡ 0 = omega arith in rw (e, f) (omega arith)
bit_xor-lt (suc w) a b p q = omega (
  arith,
  bit_xor_step a b,
  pow-suc 2 w,
  bit_xor-lt w (a / 2) (b / 2) (omega (arith, pow-suc 2 w)) (omega (arith, pow-suc 2 w)),
)

pub bit_and-lt : (w a b : ℕ) → a < 2 ^ w → b < 2 ^ w → bit_and a b < 2 ^ w
bit_and-lt zero a b p q =
    let e : a ≡ 0 = omega arith in let f : b ≡ 0 = omega arith in rw (e, f) (omega arith)
bit_and-lt (suc w) a b p q = omega (
  arith,
  bit_and_step a b,
  pow-suc 2 w,
  bit_and-lt w (a / 2) (b / 2) (omega (arith, pow-suc 2 w)) (omega (arith, pow-suc 2 w)),
)

-- Exclusive or and conjunction as laws of words.
pub xor_comm : (a b : ℕ) → bit_xor a b ≡ bit_xor b a
xor_comm a b = bit_ext _ _ λ k. omega (arith, bit-bit_xor k a b, bit-bit_xor k b a)

pub xor_assoc : (a b c : ℕ) → bit_xor (bit_xor a b) c ≡ bit_xor a (bit_xor b c)
xor_assoc a b c = bit_ext _ _ λ k. omega (
  arith,
  bit-bit_xor k (bit_xor a b) c,
  bit-bit_xor k a b,
  bit-bit_xor k a (bit_xor b c),
  bit-bit_xor k b c,
)

pub xor_self : (a : ℕ) → bit_xor a a ≡ 0
xor_self a = bit_ext _ _ λ k. omega (arith, bit-bit_xor k a a, bit-zero_left k)

pub xor-zero : (a : ℕ) → bit_xor a 0 ≡ a
xor-zero a = bit_ext _ _ λ k. omega (arith, bit-bit_xor k a 0, bit-zero_left k, bit-lt-two a k)

-- The digits of `h * 2 ^ w + l`, where `l` fits `w` digits: those of `l`, then those of `h`.
pub bit-join_low : (w h l k : ℕ) → k < w → bit (h * 2 ^ w + l) k ≡ bit l k
bit-join_low zero h l k p = absurd (omega arith)
bit-join_low (suc w) h l zero p =
    rw (bit-zero, bit-zero)
      (omega (arith, ap (λ (t : ℕ). h * t) (pow-suc 2 w), mul_assoc h (2 ^ w) 2))
bit-join_low (suc w) h l (suc k) p =
    rw (bit-suc (h * 2 ^ suc w + l) k, bit-suc l k, half) (bit-join_low w h (l / 2) k (omega arith))
  where
    half : (h * 2 ^ suc w + l) / 2 ≡ h * 2 ^ w + l / 2
    half = omega (arith, ap (λ (t : ℕ). h * t) (pow-suc 2 w), mul_assoc h (2 ^ w) 2)

pub bit-join_high : (w h l k : ℕ) → l < 2 ^ w → bit (h * 2 ^ w + l) (w + k) ≡ bit h k
bit-join_high zero h l k p =
    let e : h * 2 ^ 0 + l ≡ h = omega arith in let f : 0 + k ≡ k = omega arith in rw (e, f)
bit-join_high (suc w) h l k p =
    let f : suc w + k ≡ suc (w + k) = omega arith in
    let half : (h * 2 ^ suc w + l) / 2 ≡ h * 2 ^ w + l / 2 =
      omega (arith, ap (λ (t : ℕ). h * t) (pow-suc 2 w), mul_assoc h (2 ^ w) 2) in
    rw (f, bit-suc (h * 2 ^ suc w + l) (w + k), half)
      (bit-join_high w h (l / 2) k (omega (arith, pow-suc 2 w)))

pub bit-shift : (a n k : ℕ) → bit (n / 2 ^ a) k ≡ bit n (a + k)
bit-shift zero n k =
    let e : n / 2 ^ 0 ≡ n = omega arith in let f : 0 + k ≡ k = omega arith in rw (e, f)
bit-shift (suc a) n k =
    let f : suc a + k ≡ suc (a + k) = omega arith in
    rw (f, bit-suc n (a + k), pow-succ' 2 a, ← div-div-eq-div-mul n 2 (2 ^ a))
      (bit-shift a (n / 2) k)

pub bit-mod : (w n k : ℕ) → k < w → bit (n % 2 ^ w) k ≡ bit n k
bit-mod w n k p =
    let e : n ≡ n / 2 ^ w * 2 ^ w + n % 2 ^ w = sym (div-add-mod' n (2 ^ w)) in
    sym (bit-join_low w (n / 2 ^ w) (n % 2 ^ w) k p) ∙ ap (λ (t : ℕ). bit t k) (sym e)

pub lt_of_bits : (w n : ℕ) → ((k : ℕ) → w ≤ k → bit n k ≡ 0) → n < 2 ^ w
lt_of_bits zero n h =
    let e : n ≡ 0 = bit_ext n 0 (λ k. h k (omega arith) ∙ sym (bit-zero_left k)) in omega arith
lt_of_bits (suc w) n h =
    let ih : n / 2 < 2 ^ w =
      lt_of_bits w (n / 2) (λ k le. sym (bit-suc n k) ∙ h (suc k) (omega arith)) in
    omega (arith, pow-suc 2 w)

bit_and-zero : (a : ℕ) → bit_and a 0 ≡ 0
bit_and-zero a = bit_ext _ _ λ k. omega (arith, bit-bit_and k a 0, bit-zero_left k)

pub bit_and-one : (a : ℕ) → bit_and a 1 ≡ a % 2
bit_and-one a = omega (arith, bit_and_step a 1, bit_and-zero (a / 2))

pub two-pow-add-eight : (a : ℕ) → 2 ^ (a + 8) ≡ 2 ^ a * 256
two-pow-add-eight a =
    let e : a + 8 ≡ suc (suc (suc (suc (suc (suc (suc (suc a))))))) = omega arith in
    rw e (
      omega (
        arith,
        pow-suc 2 a,
        pow-suc 2 (suc a),
        pow-suc 2 (suc (suc a)),
        pow-suc 2 (suc (suc (suc a))),
        pow-suc 2 (suc (suc (suc (suc a)))),
        pow-suc 2 (suc (suc (suc (suc (suc a))))),
        pow-suc 2 (suc (suc (suc (suc (suc (suc a)))))),
        pow-suc 2 (suc (suc (suc (suc (suc (suc (suc a))))))),
      ))

-- A mask applied twice cancels.
pub xor_masked : (a b r : ℕ) → bit_xor b (bit_xor (bit_xor a b) r) ≡ bit_xor a r
xor_masked a b r = bit_ext _ _ λ k. omega (
  arith,
  bit-bit_xor k b (bit_xor (bit_xor a b) r),
  bit-bit_xor k (bit_xor a b) r,
  bit-bit_xor k a b,
  bit-bit_xor k a r,
)

pub xor_cancel : (a b : ℕ) → bit_xor (bit_xor a b) b ≡ a
xor_cancel a b = xor_assoc a b b ∙ ap (bit_xor a) (xor_self b) ∙ xor-zero a
