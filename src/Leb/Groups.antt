-- ===== src/Leb/Groups.antt =====
-- Groups of seven bits, as the readers of src/utils.c put them together: each `|` adds.
use wait.Common.{ℕ, suc, ◌+◌, ◌*◌, ◌/◌, ◌%◌, ◌^◌, ◌≤◌, ◌<◌, ◌≡◌, refl, arith}
use wait.Common.{bit_and, bit_or_disjoint, bit_and_low, bit_and_high}
use wait.Common.{◌==◌, true, false}
use native.Mathlib.Decide.{dec_lt}
use native.Mathlib.Numerals.{towards_suc}
use native.Mathlib.Nat.{pow-le-pow_right, mul-le-mul_right}
use wait.Leb.{or_group}

top_bit : (b : ℕ) → b < 256 → bit_and b 0x80 ≡ b / 128 * 128
top_bit b h = omega (arith, bit_and_high 7 b 1, bit_and_low 1 (b / 128) 1 refl)

seven_bits : (b : ℕ) → bit_and b 0x7f ≡ b % 128
seven_bits b = bit_and_low 7 b 0x7f refl

-- `shift` is 7 * j.
abbrev pub weight : ℕ → ℕ
weight j = 2 ^ (7 * j)

pub weight-suc : (j : ℕ) → weight (suc j) ≡ 128 * weight j
weight-suc j = let e : 7 * suc j ≡ 7 * j + 7 = omega arith in rw e (simp towards_suc (omega arith))

weight-le : (j : ℕ) → j ≤ 8 → weight j ≤ 2 ^ 56
weight-le j h = pow-le-pow_right {n = 2} (omega arith) {j = 56} (omega arith)

pub group_fits : (j value b : ℕ) → value < weight j → value + b % 128 * weight j < weight (suc j)
group_fits j value b v =
    omega (arith, weight-suc j, mul-le-mul_right {m = b % 128} {n = 127} (weight j) (omega arith))

pub inner_group :
    (j value b : ℕ)
    → j ≤ 8
    → value < weight j
    → or_group value b (7 * j) ≡ value + b % 128 * weight j
unfolding or_group
inner_group j value b h v = ground (
  arith,
  seven_bits b,
  group_fits j value b v,
  weight-suc j,
  weight-le j h,
  bit_or_disjoint (7 * j) value (b % 128),
)

last_group :
    (value b : ℕ) → value < 2 ^ 63 → or_group value b 63 ≡ (value + b % 128 * 2 ^ 63) % 2 ^ 64
unfolding or_group
last_group value b v = ground (arith, seven_bits b, bit_or_disjoint 63 value (b % 2))

-- No group overlaps another, so each `|` adds.
pub or_group_lem :
    (j value b : ℕ)
    → j ≤ 9
    → value < weight j
    → or_group value b (7 * j) ≡ (value + b % 128 * weight j) % 2 ^ 64
or_group_lem j value b h v = elim (dec_lt j 9) [
  | yes small ↦
      rw (inner_group j value b (omega arith) v)
        (omega (arith, group_fits j value b v, weight-suc j, weight-le j (omega arith)))
  | no large ↦ let e : j ≡ 9 = omega arith in rw e (last_group value b (rw e at v))
]

pub clear_top : (b : ℕ) → b < 128 → (bit_and b 0x80 == 0) ≡ true
clear_top b h = ground (arith, top_bit b)

pub set_top : (b : ℕ) → 128 ≤ b → b < 256 → (bit_and b 0x80 == 0) ≡ false
set_top b h k = ground (arith, top_bit b)
