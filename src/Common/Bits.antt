-- ===== src/Common/Bits.antt =====
-- The native bit operations as arithmetic: `|` of disjoint fields, `&` with a low mask.
use Prim.Native.Nat.{ℕ, zero, suc, ◌+◌, ◌*◌, ◌/◌, ◌%◌, ◌^◌, ◌≤◌, ◌<◌, min, max}
use Prim.Native.Nat.{bit_and, bit_or, digits, bitwise, bit_and-bitwise, bit_or-bitwise}
use mathlib.Core.Path.{◌≡◌, refl, ap}
use mathlib.Core.Bool.{Bool, true, false}
use native.Mathlib.Omega.{arith}
use package.wait.Common.Tests.{if◌then◌else◌}
use native.Mathlib.Nat.{pow-suc, one-le-pow, mul_comm, div-div-eq-div-mul}

-- The digits do not depend on how much fuel is left over.
more_fuel :
    (z : ℕ → ℕ) (f : ℕ → ℕ → ℕ) (k n a b : ℕ) → a ≤ n → n ≤ k → digits z f k a b ≡ digits z f n a b
more_fuel z f zero zero a b p q = refl
more_fuel z f zero (suc n) a b p q = absurd (omega arith)
more_fuel z f (suc k) zero zero b p q = refl
more_fuel z f (suc k) zero (suc a) b p q = absurd (omega arith)
more_fuel z f (suc k) (suc n) zero b p q = refl
more_fuel z f (suc k) (suc n) (suc a) b p q =
    rw (more_fuel z f k n (suc a / 2) (b / 2) (omega arith) (omega arith))

lowest_digit :
    (z : ℕ → ℕ) (f : ℕ → ℕ → ℕ) (a b : ℕ)
    → bitwise z f (suc a) b ≡ bitwise z f (suc a / 2) (b / 2) * 2 + f (suc a % 2) (b % 2)
lowest_digit z f a b =
    omega (arith, more_fuel z f a (suc a / 2) (suc a / 2) (b / 2) (omega arith) (omega arith))

-- The lowest digit apart, for an operation that also follows the rule where the first number is 0.
pub halves :
    (z : ℕ → ℕ) (f : ℕ → ℕ → ℕ)
    → ((n : ℕ) → z n ≡ z (n / 2) * 2 + f 0 (n % 2))
    → (m n : ℕ) → bitwise z f m n ≡ bitwise z f (m / 2) (n / 2) * 2 + f (m % 2) (n % 2)
halves z f rule zero n = rule n
halves z f rule (suc m) n = lowest_digit z f m n

pub and_halves : (m n : ℕ) → bit_and m n ≡ bit_and (m / 2) (n / 2) * 2 + min (m % 2) (n % 2)
and_halves m n = simp bit_and-bitwise (halves (λ d. 0) min (λ d. omega arith) m n)

pub or_halves : (m n : ℕ) → bit_or m n ≡ bit_or (m / 2) (n / 2) * 2 + max (m % 2) (n % 2)
or_halves m n = simp bit_or-bitwise (halves (λ d. d) max (λ d. omega arith) m n)

-- The digits against 0.
and_digits-zero : (fuel m : ℕ) → digits (λ d. 0) min fuel m 0 ≡ 0
and_digits-zero zero m = refl
and_digits-zero (suc fuel) zero = refl
and_digits-zero (suc fuel) (suc m) = omega (arith, and_digits-zero fuel (suc m / 2))

or_digits-zero : (fuel m : ℕ) → m ≤ fuel → digits (λ d. d) max fuel m 0 ≡ m
or_digits-zero zero m h = omega arith
or_digits-zero (suc fuel) zero h = refl
or_digits-zero (suc fuel) (suc m) h = omega (arith, or_digits-zero fuel (suc m / 2) (omega arith))

pub bit_and-zero : (m : ℕ) → bit_and m 0 ≡ 0
bit_and-zero m = simp bit_and-bitwise (and_digits-zero m m)

bit_or-zero : (m : ℕ) → bit_or m 0 ≡ m
bit_or-zero m = simp bit_or-bitwise (or_digits-zero m m (omega arith))

pub zero-bit_or : (b : ℕ) → bit_or 0 b ≡ b
zero-bit_or b = simp bit_or-bitwise

double : (q k : ℕ) → q * 2 ^ suc k ≡ 2 * (q * 2 ^ k)
double q k = omega (arith, ap (λ (t : ℕ). q * t) (pow-suc 2 k))

-- Fields that do not meet: `|` is `+`.
pub bit_or_disjoint : (k a b : ℕ) → a < 2 ^ k → bit_or a (b * 2 ^ k) ≡ a + b * 2 ^ k
bit_or_disjoint zero zero b h = ground (arith, zero-bit_or (b * 1))
bit_or_disjoint zero (suc a) b h = absurd (omega arith)
bit_or_disjoint (suc k) a b h =
    ground (arith, or_halves a (b * 2 ^ suc k), double b k, double 1 k, bit_or_disjoint k (a / 2) b)

half_of_quotient : (a k : ℕ) → a / 2 / 2 ^ k ≡ a / 2 ^ suc k
half_of_quotient a k = rw (div-div-eq-div-mul, pow-suc, mul_comm (2 ^ k) 2) refl

-- A mask over bits `k` and up.
pub bit_and_high : (k a m : ℕ) → bit_and a (m * 2 ^ k) ≡ bit_and (a / 2 ^ k) m * 2 ^ k
bit_and_high zero a m = ground arith
bit_and_high (suc k) a m = ground (
  arith,
  and_halves a (m * 2 ^ suc k),
  double m k,
  bit_and_high k (a / 2) m,
  double (bit_and (a / 2 ^ suc k) m) k,
  half_of_quotient a k,
)

low_part : (k q r m : ℕ) → r < 2 ^ k → m + 1 ≡ 2 ^ k → bit_and (q * 2 ^ k + r) m ≡ r
low_part zero q r m h e = let e' : m ≡ 0 = omega arith in rw (e', bit_and-zero) (omega arith)
low_part (suc k) q r m h e =
    ground (
      arith,
      and_halves (q * 2 ^ suc k + r) m,
      double q k,
      double 1 k,
      low_part k q (r / 2) (m / 2),
    )

-- The mask of the `k` low bits.
pub bit_and_low : (k a m : ℕ) → m + 1 ≡ 2 ^ k → bit_and a m ≡ a % 2 ^ k
bit_and_low k a m h = ground (arith, one-le-pow k 2, low_part k (a / 2 ^ k) (a % 2 ^ k) m)

-- A test that evaluates to true at each number below a bound.
unfoldable pub passes_below : ℕ → (ℕ → Bool) → Bool
passes_below zero test = true
passes_below (suc bound) test = if test bound then passes_below bound test else false

pub test_passes :
    (bound n : ℕ) (test : ℕ → Bool) → n < bound → passes_below bound test ≡ true → test n ≡ true
unfolding passes_below
test_passes zero n test lt all = absurd (omega arith)
test_passes (suc bound) n test lt all = ground (arith, test_passes bound n test)
