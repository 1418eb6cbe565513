-- ===== src/Common/Bitwise.antt =====
-- A bit operation on a number is that operation on each of its bytes.
use Prim.Native.Nat.{ℕ, zero, suc, ◌+◌, ◌*◌, ◌/◌, ◌%◌, ◌^◌, ◌<◌}
use Prim.Native.Nat.{bit_xor, differ, bit_xor-bitwise}
use mathlib.Core.Path.{◌≡◌, refl, ap₂, ◌∙◌}
use native.Mathlib.Omega.{arith}
use native.Mathlib.Nat.{pow-suc, mul_comm, div-div-eq-div-mul}
use package.wait.Common.Bits.{halves}

pub xor_halves : (m n : ℕ) → bit_xor m n ≡ bit_xor (m / 2) (n / 2) * 2 + differ (m % 2) (n % 2)
xor_halves m n = simp bit_xor-bitwise (halves (λ d. d) differ (λ d. omega arith) m n)

pub half_pow : (a k : ℕ) → a / 2 / 2 ^ k ≡ a / 2 ^ suc k
half_pow a k = rw (div-div-eq-div-mul, pow-suc, mul_comm (2 ^ k) 2) refl

-- `op` works digit by digit, with `f` on each.
module _ (op f : ℕ → ℕ → ℕ) (step : (a b : ℕ) → op a b ≡ op (a / 2) (b / 2) * 2 + f (a % 2) (b % 2))
    (digit : (x y : ℕ) → x < 2 → y < 2 → f x y < 2) (nothing : op 0 0 ≡ 0) where
  high_digits : (k a b : ℕ) → op a b / 2 ^ k ≡ op (a / 2 ^ k) (b / 2 ^ k)
  high_digits zero a b =
      let e : op a b ≡ op (a / 2 ^ 0) (b / 2 ^ 0) = ap₂ op (omega arith) (omega arith) in
      omega arith
  high_digits (suc k) a b =
      let d = digit (a % 2) (b % 2) (omega arith) (omega arith) in
      let e : op a b / 2 ≡ op (a / 2) (b / 2) = omega (arith, step a b) in
      rw⁻¹ (half_pow a k, half_pow b k, half_pow (op a b) k) (rw e (high_digits k (a / 2) (b / 2)))

  -- One more low digit: `a'` and `b'` are what is left of `a` and `b`.
  low_step :
      (m a b a' b' : ℕ)
      → a' / 2 ≡ a / 2 % m
      → b' / 2 ≡ b / 2 % m
      → a' % 2 ≡ a % 2
      → b' % 2 ≡ b % 2
      → op (a / 2) (b / 2) % m ≡ op (a / 2 % m) (b / 2 % m)
      → op a' b' ≡ op (a / 2) (b / 2) % m * 2 + f (a % 2) (b % 2)
  low_step m a b a' b' p q r s h = step a' b' ∙ rw (p, q, r, s, h) refl

  low_1 : (a b : ℕ) → op a b % 1 ≡ op (a % 1) (b % 1)
  low_1 a b =
      let e : op (a % 1) (b % 1) ≡ op 0 0 = ap₂ op (omega arith) (omega arith) in
      omega (arith, nothing)

  low_2 : (a b : ℕ) → op a b % 2 ≡ op (a % 2) (b % 2)
  low_2 a b =
      let d = digit (a % 2) (b % 2) (omega arith) (omega arith) in
      omega (
        arith,
        step a b,
        low_step 1 a b (a % 2) (b % 2) (omega arith) (omega arith) (omega arith) (omega arith)
            (low_1 (a / 2) (b / 2)),
      )

  low_4 : (a b : ℕ) → op a b % 4 ≡ op (a % 4) (b % 4)
  low_4 a b =
      let d = digit (a % 2) (b % 2) (omega arith) (omega arith) in
      omega (
        arith,
        step a b,
        low_step 2 a b (a % 4) (b % 4) (omega arith) (omega arith) (omega arith) (omega arith)
            (low_2 (a / 2) (b / 2)),
      )

  low_8 : (a b : ℕ) → op a b % 8 ≡ op (a % 8) (b % 8)
  low_8 a b =
      let d = digit (a % 2) (b % 2) (omega arith) (omega arith) in
      omega (
        arith,
        step a b,
        low_step 4 a b (a % 8) (b % 8) (omega arith) (omega arith) (omega arith) (omega arith)
            (low_4 (a / 2) (b / 2)),
      )

  low_16 : (a b : ℕ) → op a b % 16 ≡ op (a % 16) (b % 16)
  low_16 a b =
      let d = digit (a % 2) (b % 2) (omega arith) (omega arith) in
      omega (
        arith,
        step a b,
        low_step 8 a b (a % 16) (b % 16) (omega arith) (omega arith) (omega arith) (omega arith)
            (low_8 (a / 2) (b / 2)),
      )

  low_32 : (a b : ℕ) → op a b % 32 ≡ op (a % 32) (b % 32)
  low_32 a b =
      let d = digit (a % 2) (b % 2) (omega arith) (omega arith) in
      omega (
        arith,
        step a b,
        low_step 16 a b (a % 32) (b % 32) (omega arith) (omega arith) (omega arith) (omega arith)
            (low_16 (a / 2) (b / 2)),
      )

  low_64 : (a b : ℕ) → op a b % 64 ≡ op (a % 64) (b % 64)
  low_64 a b =
      let d = digit (a % 2) (b % 2) (omega arith) (omega arith) in
      omega (
        arith,
        step a b,
        low_step 32 a b (a % 64) (b % 64) (omega arith) (omega arith) (omega arith) (omega arith)
            (low_32 (a / 2) (b / 2)),
      )

  low_128 : (a b : ℕ) → op a b % 128 ≡ op (a % 128) (b % 128)
  low_128 a b =
      let d = digit (a % 2) (b % 2) (omega arith) (omega arith) in
      omega (
        arith,
        step a b,
        low_step 64 a b (a % 128) (b % 128) (omega arith) (omega arith) (omega arith) (omega arith)
            (low_64 (a / 2) (b / 2)),
      )

  pub low_256 : (a b : ℕ) → op a b % 256 ≡ op (a % 256) (b % 256)
  low_256 a b =
      let d = digit (a % 2) (b % 2) (omega arith) (omega arith) in
      omega (
        arith,
        step a b,
        low_step 128 a b (a % 256) (b % 256) (omega arith) (omega arith) (omega arith) (omega arith)
            (low_128 (a / 2) (b / 2)),
      )

  pub byte_of : (k a b : ℕ) → op a b / 2 ^ k % 256 ≡ op (a / 2 ^ k % 256) (b / 2 ^ k % 256)
  byte_of k a b = rw (high_digits k a b) (low_256 (a / 2 ^ k) (b / 2 ^ k))
