-- ===== src/Leb/Signed.antt =====
-- What `ReadLebSigned` returns on a well-formed number: two's complement.
use wait.Common.{
  ℕ, zero, suc, ◌+◌, ◌-◌, ◌*◌, ◌/◌, ◌%◌, ◌^◌, ◌≤◌, ◌<◌, ◌≡◌, refl, sym, ap, ◌∙◌, arith,
}
use wait.Common.{Bool-cases, inl, inr, if◌then◌else◌}
use wait.Common.{Bool, true, false, List, [], ◌∷◌, length, ◌==◌, ==→eq, leb, ltb}
use wait.Common.{bit_and, bit_or_disjoint, bit_and_low, bit_and_high, passes_below, test_passes}
use wait.Common.{ok, lt→leb}
use mathlib.Core.Path.{ap₂}
use Prim.Native.Nat.add
use native.Mathlib.Nat.{add-zero}
use native.Mathlib.Numerals.{add-one}
use wait.Leb.Encoding.{IsLeb, leb_value, Holds}
use wait.Leb.Groups.{weight, weight-suc, inner_group, group_fits, clear_top, set_top}
use wait.Leb.{Flash, sign_extend, read_leb_signed_loop, read_leb_signed, read_leb_i32, read_leb_i7}

-- Bit 6 of the last byte.
abbrev pub ends_negative : List ℕ → Bool
ends_negative [] = false
ends_negative (b ∷ []) = leb 64 (b % 128)
ends_negative (b ∷ c ∷ bs) = ends_negative (c ∷ bs)

sign_bit : (b : ℕ) → b < 128 → (bit_and b 0x40 == 0) ≡ ltb b 64
sign_bit b h = ground (arith, bit_and_high 6 b 1, bit_and_low 1 (b / 64) 1 refl)

-- The ones above bit 7 * j, as `~0 << shift` has them.
ones_above :
    (j : ℕ)
    → j < 10
    → ((2 ^ 64 - 1) * weight j % 2 ^ 64 ≡ (2 ^ (64 - 7 * j) - 1) * weight j)
      × ((2 ^ (64 - 7 * j) - 1) * weight j + weight j ≡ 2 ^ 64)
unfolding passes_below
ones_above j h = (
  ==→eq _ _ (
      test_passes 10 j (λ k. (2 ^ 64 - 1) * weight k % 2 ^ 64 == (2 ^ (64 - 7 * k) - 1) * weight k)
        h refl),
  ==→eq _ _ (test_passes 10 j (λ k. (2 ^ (64 - 7 * k) - 1) * weight k + weight k == 2 ^ 64) h refl),
)

sign_extend_negative :
    (j value b : ℕ)
    → 64 ≤ b
    → b < 128
    → j < 10
    → value < weight j
    → sign_extend value b (7 * j) + weight j ≡ value + 2 ^ 64
unfolding sign_extend
sign_extend_negative j value b neg h hj hv =
    ground (arith, sign_bit b, ones_above j, bit_or_disjoint (7 * j) value (2 ^ (64 - 7 * j) - 1))

sign_extend_other : (j value b : ℕ) → b < 64 → sign_extend value b (7 * j) ≡ value
unfolding sign_extend
sign_extend_other j value b h = ground (arith, sign_bit b)

count : (j n : ℕ) → suc j + suc n ≡ j + suc (suc n)
count j n = omega arith

module _ (flash : Flash) (max_bits : ℕ) where
  last_round :
      (left value j shift ptr b : ℕ)
      → flash ptr ≡ b
      → b < 128
      → shift ≡ 7 * j
      → j ≤ 8
      → value < weight j
      → read_leb_signed_loop flash max_bits (suc left) value shift ptr
        ≡ ok (sign_extend (value + b % 128 * weight j) b (7 * suc j), ptr + 1)
  unfolding read_leb_signed_loop
  last_round left value j shift ptr b at small hs hj hv =
      let e : 7 * suc j ≡ 7 * j + 7 = omega arith in
      rw (at, hs, clear_top b small, inner_group j value b hj hv, e)

  inner_round :
      (left value j shift ptr b : ℕ)
      → flash ptr ≡ b
      → 128 ≤ b
      → b < 256
      → shift ≡ 7 * j
      → 7 * suc j < max_bits
      → j ≤ 8
      → value < weight j
      → read_leb_signed_loop flash max_bits (suc left) value shift ptr
        ≡ read_leb_signed_loop flash max_bits left
            (value + b % 128 * weight j)
            (7 * suc j)
            (ptr + 1)
  unfolding read_leb_signed_loop
  inner_round left value j shift ptr b at large byte hs fits hj hv =
      let e : 7 * suc j ≡ 7 * j + 7 = omega arith in
      rw (
        at,
        hs,
        set_top b large byte,
        inner_group j value b hj hv,
        e,
        lt→leb max_bits (7 * j + 7) (omega arith),
      )

  loop_negative :
      (bs : List ℕ) (left value j ptr r : ℕ)
      → IsLeb bs
      → ends_negative bs ≡ true
      → Holds flash ptr bs
      → length bs ≤ left
      → j + length bs ≤ 9
      → 7 * (j + length bs) < max_bits + 7
      → value < weight j
      → r + weight (j + length bs) ≡ value + leb_value bs * weight j + 2 ^ 64
      → read_leb_signed_loop flash max_bits left value (7 * j) ptr ≡ ok (r, ptr + length bs)
  loop_negative [] left value j ptr r l neg at room nine fits hv e = elim l [ ]
  loop_negative (b ∷ bs) zero value j ptr r l neg at room nine fits hv e = absurd (omega arith)
  loop_negative (b ∷ []) (suc left) value j ptr r l neg at room nine fits hv e =
      last_round left value j (7 * j) ptr b at.0 l refl (omega arith) hv
      ∙ ap (λ v. ok (v, ptr + 1))
          (omega (
            arith,
            sign_extend_negative (suc j) (value + b % 128 * weight j) b (ground arith) l
                (omega arith) (group_fits j value b hv),
            rw add-one at e,
          ))
  loop_negative (b ∷ c ∷ bs) (suc left) value j ptr r l neg at room nine fits hv e =
      inner_round left value j (7 * j) ptr b at.0 l.0 l.1 refl (omega arith) (omega arith) hv
      ∙ loop_negative (c ∷ bs) left (value + b % 128 * weight j) (suc j) (ptr + 1) r l.2 neg at.1
          (omega arith) (omega arith) (omega arith) (group_fits j value b hv)
          (omega (
            arith,
            ap weight (count j (length bs)),
            ap (λ (t : ℕ). leb_value (c ∷ bs) * t) (weight-suc j),
          ))
      ∙ ap (λ p. ok (r, p)) (omega arith)

  loop_other :
      (bs : List ℕ) (left value j ptr : ℕ)
      → IsLeb bs
      → ends_negative bs ≡ false
      → Holds flash ptr bs
      → length bs ≤ left
      → j + length bs ≤ 9
      → 7 * (j + length bs) < max_bits + 7
      → value < weight j
      → read_leb_signed_loop flash max_bits left value (7 * j) ptr
        ≡ ok (value + leb_value bs * weight j, ptr + length bs)
  loop_other [] left value j ptr l pos at room nine fits hv = elim l [ ]
  loop_other (b ∷ bs) zero value j ptr l pos at room nine fits hv = absurd (omega arith)
  loop_other (b ∷ []) (suc left) value j ptr l pos at room nine fits hv =
      last_round left value j (7 * j) ptr b at.0 l refl (omega arith) hv
      ∙ ap (λ v. ok (v, ptr + 1))
          (sign_extend_other (suc j) (value + b % 128 * weight j) b (ground arith)
            ∙ ap (λ t. value + t * weight j) (sym (add-zero (b % 128))))
  loop_other (b ∷ c ∷ bs) (suc left) value j ptr l pos at room nine fits hv =
      inner_round left value j (7 * j) ptr b at.0 l.0 l.1 refl (omega arith) (omega arith) hv
      ∙ loop_other (c ∷ bs) left (value + b % 128 * weight j) (suc j) (ptr + 1) l.2 pos at.1
          (omega arith) (omega arith) (omega arith) (group_fits j value b hv)
      ∙ ap₂ (λ v p. ok (v, p))
          (omega (arith, ap (λ (t : ℕ). leb_value (c ∷ bs) * t) (weight-suc j))) (omega arith)

module _ (flash : Flash) (bs : List ℕ) (ptr end : ℕ) where
  -- Where at most five bytes that are a LEB128 encoding with bit 6 of the last byte clear stand in
  -- the program memory before the end, `ReadLEB_i32` gives the value of their groups modulo 2 ^ 32
  -- and the address behind them.
  pub read_leb_i32_nonnegative :
      IsLeb bs
      → ends_negative bs ≡ false
      → Holds flash ptr bs
      → ptr + length bs ≤ end
      → length bs ≤ 5
      → read_leb_i32 flash ptr end ≡ ok (leb_value bs % 2 ^ 32, ptr + length bs)
  unfolding read_leb_i32 read_leb_signed
  read_leb_i32_nonnegative l pos at room five =
      rw
        (loop_other flash 32 bs (end - ptr) 0 0 ptr l pos at (omega arith) (omega arith)
          (omega arith) (omega arith))
        (ap (λ v. ok (v, ptr + length bs)) (omega arith))

  -- Where at most five bytes that are a LEB128 encoding with bit 6 of the last byte set stand in the
  -- program memory before the end, and their groups stand for 2 ^ (7 * n) - m for their number n and
  -- an m from 1 to 2 ^ 31, `ReadLEB_i32` gives the pattern of -m and the address behind them.
  pub read_leb_i32_negative :
      (m : ℕ)
      → IsLeb bs
      → ends_negative bs ≡ true
      → Holds flash ptr bs
      → ptr + length bs ≤ end
      → length bs ≤ 5
      → leb_value bs + m ≡ 2 ^ (7 * length bs)
      → 0 < m
      → m ≤ 2 ^ 31
      → read_leb_i32 flash ptr end ≡ ok (2 ^ 32 - m, ptr + length bs)
  unfolding read_leb_i32 read_leb_signed
  read_leb_i32_negative m l neg at room five e pos small =
      rw
        (loop_negative flash 32 bs (end - ptr) 0 0 ptr (2 ^ 64 - m) l neg at (omega arith)
          (omega arith) (omega arith) (omega arith) total)
        (ap (λ v. ok (v, ptr + length bs)) (omega arith))
    where
      total : 2 ^ 64 - m + weight (0 + length bs) ≡ 0 + leb_value bs * weight 0 + 2 ^ 64
      total = rw add.zero (omega arith)

-- A byte below 128 is an i7: from 64 on it is negative.
pub read_leb_i7-byte :
    (flash : Flash) (ptr end b : ℕ)
    → flash ptr ≡ b
    → b < 128
    → ptr < end
    → read_leb_i7 flash ptr end ≡ ok (if ltb b 64 then b else b + 128, ptr + 1)
unfolding read_leb_i7 read_leb_signed
read_leb_i7-byte flash ptr end b at small room = elim (Bool-cases (leb 64 (b % 128))) [
  | inl neg ↦
      rw
        (loop_negative flash 7 (b ∷ []) (end - ptr) 0 0 ptr (b + (2 ^ 64 - 128)) small neg (at, tt)
          (omega arith) (omega arith) (omega arith) (omega arith) (omega arith))
        (ap (λ v. ok (v, ptr + 1)) (ground arith))
  | inr pos ↦
      rw
        (loop_other flash 7 (b ∷ []) (end - ptr) 0 0 ptr small pos (at, tt) (omega arith)
          (omega arith) (omega arith) (omega arith))
        (ap (λ v. ok (v, ptr + 1)) (ground arith))
]
