-- ===== src/Base/Bits.antt =====
-- `|` and `&` on native numbers: the equation for the lowest digit, fields that do not overlap, and
-- masks, at every width.
use Prim.Native.Nat.{
  ℕ, zero, suc, ◌+◌, ◌*◌, ◌/◌, ◌%◌, ◌^◌, ◌-◌, ◌≤◌, ◌<◌, min, max, digits, bitwise, bit_and, bit_or,
  bit_and-bitwise, bit_or-bitwise,
}
use mathlib.Core.Path.{◌≡◌, refl, ap, ◌∙◌}
use native.Mathlib.Nat.{pow-suc, one-le-pow, div-div-eq-div-mul}
use native.Mathlib.Omega.{arith}

-- The library's `digits` counts its rounds. As many rounds as the number are enough, whatever the
-- operation on digits and the rest that it takes over.
module _ (rest : ℕ → ℕ) (on_digits : ℕ → ℕ → ℕ) where
  rounds_suffice :
      (bound rounds x y : ℕ)
      → rounds ≤ bound
      → x ≤ rounds
      → digits rest on_digits rounds x y ≡ digits rest on_digits x x y
  rounds_suffice bound zero zero y small enough = refl
  rounds_suffice bound (suc r) zero y small enough = refl
  rounds_suffice bound zero (suc x) y small enough = elim enough [ ]
  rounds_suffice zero (suc r) (suc x) y small enough = elim small [ ]
  rounds_suffice (suc bound) (suc r) (suc x) y small enough =
      let half = suc x / 2 in
      let long = rounds_suffice bound r half (y / 2) (omega arith) (omega arith) in
      let short = rounds_suffice bound x half (y / 2) (omega arith) (omega arith) in
      omega (arith, long, short)

  halve :
      (x y : ℕ)
      → bitwise rest on_digits (suc x) y
        ≡ bitwise rest on_digits (suc x / 2) (y / 2) * 2 + on_digits (suc x % 2) (y % 2)
  halve x y = omega (arith, rounds_suffice x x (suc x / 2) (y / 2) (omega arith) (omega arith))

pub bit_or_step : (x y : ℕ) → bit_or x y ≡ 2 * bit_or (x / 2) (y / 2) + max (x % 2) (y % 2)
bit_or_step zero y = omega (arith, bit_or-bitwise 0 y, bit_or-bitwise 0 (y / 2))
bit_or_step (suc x) y =
    let now = bit_or-bitwise (suc x) y in
    let next = bit_or-bitwise (suc x / 2) (y / 2) in
    omega (arith, now, next, halve (λ d. d) max x y)

pub bit_and_step : (x y : ℕ) → bit_and x y ≡ 2 * bit_and (x / 2) (y / 2) + min (x % 2) (y % 2)
bit_and_step zero y = omega (arith, bit_and-bitwise 0 y, bit_and-bitwise 0 (y / 2))
bit_and_step (suc x) y =
    let now = bit_and-bitwise (suc x) y in
    let next = bit_and-bitwise (suc x / 2) (y / 2) in
    omega (arith, now, next, halve (λ d. zero) min x y)

bit_or-zero_upto : (n a : ℕ) → a ≤ n → bit_or a 0 ≡ a
bit_or-zero_upto n zero h = refl
bit_or-zero_upto zero (suc a) h = absurd (omega arith)
bit_or-zero_upto (suc n) (suc a) h =
    omega (arith, bit_or_step (suc a) 0, bit_or-zero_upto n (suc a / 2) (omega arith))

pub bit_or-zero : (a : ℕ) → bit_or a 0 ≡ a
bit_or-zero a = bit_or-zero_upto a a (omega arith)

bit_and-zero_upto : (n a : ℕ) → a ≤ n → bit_and a 0 ≡ 0
bit_and-zero_upto n zero h = refl
bit_and-zero_upto zero (suc a) h = absurd (omega arith)
bit_and-zero_upto (suc n) (suc a) h =
    omega (arith, bit_and_step (suc a) 0, bit_and-zero_upto n (suc a / 2) (omega arith))

pub bit_and-zero : (a : ℕ) → bit_and a 0 ≡ 0
bit_and-zero a = bit_and-zero_upto a a (omega arith)

two_pow_mul : (q k : ℕ) → q * 2 ^ suc k ≡ 2 * (q * 2 ^ k)
two_pow_mul q k = omega (arith, ap (λ (t : ℕ). q * t) (pow-suc 2 k))

-- Flags below bit `k` do not touch what stands from bit `k` upwards.
pub bit_or_low :
    (k q a b : ℕ) → a < 2 ^ k → b < 2 ^ k → bit_or (q * 2 ^ k + a) b ≡ q * 2 ^ k + bit_or a b
bit_or_low zero q a b ha hb =
    let a0 : a ≡ 0 = omega arith in
    let b0 : b ≡ 0 = omega arith in rw (a0, b0) (omega (arith, bit_or-zero (q * 1 + 0)))
bit_or_low (suc k) q a b ha hb = ground (
  arith,
  pow-suc 2 k,
  two_pow_mul q k,
  bit_or_step (q * 2 ^ suc k + a) b,
  bit_or_step a b,
  bit_or_low k q (a / 2) (b / 2) (omega (arith, pow-suc 2 k)) (omega (arith, pow-suc 2 k)),
)

pub bit_or-lt : (k a b : ℕ) → a < 2 ^ k → b < 2 ^ k → bit_or a b < 2 ^ k
bit_or-lt zero a b ha hb =
    let a0 : a ≡ 0 = omega arith in let b0 : b ≡ 0 = omega arith in rw (a0, b0) (omega arith)
bit_or-lt (suc k) a b ha hb = omega (
  arith,
  pow-suc 2 k,
  bit_or_step a b,
  bit_or-lt k (a / 2) (b / 2) (omega (arith, pow-suc 2 k)) (omega (arith, pow-suc 2 k)),
)

bit_and_low : (k q r : ℕ) → r < 2 ^ k → bit_and (q * 2 ^ k + r) (2 ^ k - 1) ≡ r
bit_and_low zero q r h = rw bit_and-zero (omega arith)
bit_and_low (suc k) q r h = ground (
  arith,
  bit_and_step (q * 2 ^ suc k + r) (2 ^ suc k - 1),
  two_pow_mul q k,
  pow-suc 2 k,
  one-le-pow k 2,
  bit_and_low k q (r / 2) (omega (arith, pow-suc 2 k)),
)

-- A mask of `k` low bits is the remainder by `2 ^ k`.
pub bit_and_mask : (k a : ℕ) → bit_and a (2 ^ k - 1) ≡ a % 2 ^ k
bit_and_mask k a = ground (arith, one-le-pow k 2, bit_and_low k (a / 2 ^ k) (a % 2 ^ k))

-- A mask of `n` bits from bit `k` on.
pub bit_and_high : (k n a : ℕ) → bit_and a ((2 ^ n - 1) * 2 ^ k) ≡ a / 2 ^ k % 2 ^ n * 2 ^ k
bit_and_high zero n a = ground (arith, bit_and_mask n a)
bit_and_high (suc k) n a = ground (
  arith,
  pow-suc 2 k,
  two_pow_mul (2 ^ n - 1) k,
  two_pow_mul (a / 2 ^ suc k % 2 ^ n) k,
  div-div-eq-div-mul a 2 (2 ^ k),
  bit_and_step a ((2 ^ n - 1) * 2 ^ suc k),
  bit_and_high k n (a / 2),
)

pub zero-bit_or : (b : ℕ) → bit_or 0 b ≡ b
zero-bit_or b = bit_or-bitwise 0 b

-- What is left of the fields below bit `k` is gone from bit `k` on.
pub bit_or_field : (k q b : ℕ) → b < 2 ^ k → bit_or (q * 2 ^ k) b ≡ q * 2 ^ k + b
bit_or_field k q b h =
    let base : q * 2 ^ k + 0 ≡ q * 2 ^ k = omega arith in
    rw (← base) (bit_or_low k q 0 b (one-le-pow k 2 (omega arith)) h ∙ omega (arith, zero-bit_or b))

-- A single flag is read off by its mask.
pub bit_and_flag : (k a : ℕ) → bit_and a (2 ^ k) ≡ a / 2 ^ k % 2 * 2 ^ k
bit_and_flag k a = ground (arith, bit_and_high k 1 a)
