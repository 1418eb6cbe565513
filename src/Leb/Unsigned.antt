-- ===== src/Leb/Unsigned.antt =====
-- What `ReadLebUnsigned` returns, on each of its three ends.
use wait.Common.{ℕ, zero, suc, ◌+◌, ◌-◌, ◌*◌, ◌%◌, ◌^◌, ◌≤◌, ◌<◌, ◌≡◌, refl, ap, ◌∙◌, arith}
use mathlib.Core.Path.{ap₂}
use native.Mathlib.Nat.{add-zero}
use wait.Common.{List, [], ◌∷◌, length}
use wait.Common.{ok, panic, lt→leb, le→leb, >>=-eq-ok}
use Prim.Native.Nat.{max}
use native.Mathlib.Decide.{dec_lt}
use wait.Leb.Encoding.{IsLeb, IsOpen, leb_value, Holds, leb_bytes, leb_bytes_lem}
use wait.Leb.{Flash, or_group, read_leb_u32, read_leb_unsigned_loop, read_leb_unsigned}
use wait.Leb.Groups.{weight, weight-suc, group_fits, inner_group, or_group_lem, clear_top, set_top}

module _ (flash : Flash) (max_bits : ℕ) where
  -- One round on a byte that ends the number, and on one that does not.
  last_round :
      (left value j shift ptr b : ℕ)
      → flash ptr ≡ b
      → b < 128
      → shift ≡ 7 * j
      → j ≤ 9
      → value < weight j
      → read_leb_unsigned_loop flash max_bits (suc left) value shift ptr
        ≡ ok ((value + b % 128 * weight j) % 2 ^ 64, ptr + 1)
  unfolding read_leb_unsigned_loop
  last_round left value j shift ptr b at small hs hj hv =
      rw (at, hs, clear_top b small, or_group_lem j value b hj hv)

  inner_round :
      (left value j shift ptr b : ℕ)
      → flash ptr ≡ b
      → 128 ≤ b
      → b < 256
      → shift ≡ 7 * j
      → 7 * suc j < max_bits
      → j ≤ 8
      → value < weight j
      → read_leb_unsigned_loop flash max_bits (suc left) value shift ptr
        ≡ read_leb_unsigned_loop flash max_bits left
            (value + b % 128 * weight j)
            (7 * suc j)
            (ptr + 1)
  unfolding read_leb_unsigned_loop
  inner_round left value j shift ptr b at large byte hs fits hj hv =
      let e : 7 * suc j ≡ 7 * j + 7 = omega arith in
      rw (
        at,
        hs,
        set_top b large byte,
        inner_group j value b hj hv,
        e,
        lt→leb max_bits (7 * j + 7) (omega arith),
      )

  panic_round :
      (left value j shift ptr b : ℕ)
      → flash ptr ≡ b
      → 128 ≤ b
      → b < 256
      → shift ≡ 7 * j
      → max_bits ≤ 7 * suc j
      → read_leb_unsigned_loop flash max_bits (suc left) value shift ptr ≡ panic
  unfolding read_leb_unsigned_loop
  panic_round left value j shift ptr b at large byte hs full =
      rw (at, hs, set_top b large byte, le→leb max_bits (7 * j + 7) (omega arith))

  loop-IsLeb :
      (bs : List ℕ) (left value j ptr : ℕ)
      → IsLeb bs
      → Holds flash ptr bs
      → length bs ≤ left
      → j + length bs ≤ 10
      → 7 * (j + length bs) < max_bits + 7
      → value < weight j
      → read_leb_unsigned_loop flash max_bits left value (7 * j) ptr
        ≡ ok ((value + leb_value bs * weight j) % 2 ^ 64, ptr + length bs)
  loop-IsLeb [] left value j ptr l at room ten fits hv = elim l [ ]
  loop-IsLeb (b ∷ bs) zero value j ptr l at room ten fits hv = absurd (omega arith)
  loop-IsLeb (b ∷ []) (suc left) value j ptr l at room ten fits hv =
      last_round left value j (7 * j) ptr b at.0 l refl (omega arith) hv
      ∙ ap₂ (λ v p. ok (v, p)) (rw add-zero) refl
  loop-IsLeb (b ∷ c ∷ bs) (suc left) value j ptr l at room ten fits hv =
      inner_round left value j (7 * j) ptr b at.0 l.0 l.1 refl (omega arith) (omega arith) hv
      ∙ loop-IsLeb (c ∷ bs) left (value + b % 128 * weight j) (suc j) (ptr + 1) l.2 at.1
          (omega arith) (omega arith) (omega arith) (group_fits j value b hv)
      ∙ ap₂ (λ v p. ok (v % 2 ^ 64, p))
          (omega (arith, ap (λ (t : ℕ). leb_value (c ∷ bs) * t) (weight-suc j))) (omega arith)

  loop_overlong :
      (bs : List ℕ) (left value j ptr : ℕ)
      → max_bits ≤ 64
      → IsOpen bs
      → Holds flash ptr bs
      → length bs ≤ left
      → 7 * j < max_bits
      → max_bits ≤ 7 * (j + length bs)
      → value < weight j
      → read_leb_unsigned_loop flash max_bits left value (7 * j) ptr ≡ panic
  loop_overlong [] left value j ptr m o at room more full hv = absurd (omega arith)
  loop_overlong (b ∷ bs) zero value j ptr m o at room more full hv = absurd (omega arith)
  loop_overlong (b ∷ bs) (suc left) value j ptr m o at room more full hv =
      elim (dec_lt (7 * suc j) max_bits) [
        | yes below ↦
            inner_round left value j (7 * j) ptr b at.0 o.0 o.1 refl below (omega arith) hv
            ∙ loop_overlong bs left (value + b % 128 * weight j) (suc j) (ptr + 1) m o.2 at.1
                (omega arith) below (omega arith) (group_fits j value b hv)
        | no full_here ↦ panic_round left value j (7 * j) ptr b at.0 o.0 o.1 refl (omega arith)
      ]

  loop_cut :
      (bs : List ℕ) (value j ptr : ℕ)
      → max_bits ≤ 64
      → IsOpen bs
      → Holds flash ptr bs
      → 7 * (j + length bs) < max_bits
      → value < weight j
      → read_leb_unsigned_loop flash max_bits (length bs) value (7 * j) ptr
        ≡ ok (value + leb_value bs * weight j, ptr + length bs)
  unfolding read_leb_unsigned_loop
  loop_cut [] value j ptr m o at fits hv = ap₂ (λ v p. ok (v, p)) (omega arith) (omega arith)
  loop_cut (b ∷ bs) value j ptr m o at fits hv =
      inner_round (length bs) value j (7 * j) ptr b at.0 o.0 o.1 refl (omega arith) (omega arith) hv
      ∙ loop_cut bs (value + b % 128 * weight j) (suc j) (ptr + 1) m o.2 at.1 (omega arith)
          (group_fits j value b hv)
      ∙ ap₂ (λ v p. ok (v, p)) (omega (arith, ap (λ (t : ℕ). leb_value bs * t) (weight-suc j)))
          (omega arith)

  loop_bounds :
      (left value shift ptr v p : ℕ)
      → read_leb_unsigned_loop flash max_bits left value shift ptr ≡ ok (v, p)
      → shift < max_bits
      → (ptr ≤ p) × (p ≤ ptr + left) × (7 * p + shift < 7 * ptr + max_bits + 7)
  unfolding read_leb_unsigned_loop
  loop_bounds zero value shift ptr v p e h = ground arith
  loop_bounds (suc left) value shift ptr v p e h =
      ground (arith, loop_bounds left (or_group value (flash ptr) shift) (shift + 7) (ptr + 1) v p)

  -- Where at most ten bytes that are a LEB128 encoding, and not one more group than `maxNumBits`
  -- allows, stand in the program memory before the end, `ReadLebUnsigned` gives the value of their
  -- groups modulo 2 ^ 64 and the address behind them.
  pub read_leb_unsigned-IsLeb :
      (bs : List ℕ) (ptr end : ℕ)
      → IsLeb bs
      → Holds flash ptr bs
      → ptr + length bs ≤ end
      → length bs ≤ 10
      → 7 * length bs < max_bits + 7
      → read_leb_unsigned flash max_bits ptr end ≡ ok (leb_value bs % 2 ^ 64, ptr + length bs)
  unfolding read_leb_unsigned
  read_leb_unsigned-IsLeb bs ptr end l at room ten fits =
      loop-IsLeb bs (end - ptr) 0 0 ptr l at (omega arith) (omega arith) (omega arith) (omega arith)
      ∙ ap (λ v. ok (v, ptr + length bs)) (omega arith)

  -- For `maxNumBits` from 1 to 64, where bytes with the top bit set, with at least as many payload
  -- bits as `maxNumBits`, stand in the program memory before the end, `ReadLebUnsigned` stops.
  pub read_leb_unsigned_overlong :
      (bs : List ℕ) (ptr end : ℕ)
      → 0 < max_bits
      → max_bits ≤ 64
      → IsOpen bs
      → Holds flash ptr bs
      → ptr + length bs ≤ end
      → max_bits ≤ 7 * length bs
      → read_leb_unsigned flash max_bits ptr end ≡ panic
  unfolding read_leb_unsigned
  read_leb_unsigned_overlong bs ptr end pos m o at room full =
      loop_overlong bs (end - ptr) 0 0 ptr m o at (omega arith) (omega arith) (omega arith)
        (omega arith)

  -- For `maxNumBits` up to 64, where the end comes after bytes with the top bit set, with fewer
  -- payload bits than `maxNumBits`, `ReadLebUnsigned` does not stop: it takes the groups that were
  -- read as the number, and ends at the end.
  pub read_leb_unsigned_cut :
      (bs : List ℕ) (ptr : ℕ)
      → max_bits ≤ 64
      → IsOpen bs
      → Holds flash ptr bs
      → 7 * length bs < max_bits
      → read_leb_unsigned flash max_bits ptr (ptr + length bs) ≡ ok (leb_value bs, ptr + length bs)
  unfolding read_leb_unsigned
  read_leb_unsigned_cut bs ptr m o at fits =
      let e : ptr + length bs - ptr ≡ length bs = omega arith in
      rw e (
        loop_cut bs 0 0 ptr m o at (omega arith) (omega arith)
        ∙ ap (λ v. ok (v, ptr + length bs)) (omega arith))

  -- For a positive `maxNumBits`, where `ReadLebUnsigned` gives an address p, p is not below the
  -- start, not behind the end unless the start is, and the bytes read carry fewer than `maxNumBits`
  -- + 7 bits.
  pub read_leb_unsigned_bounds :
      (ptr end v p : ℕ)
      → read_leb_unsigned flash max_bits ptr end ≡ ok (v, p)
      → 0 < max_bits
      → (ptr ≤ p) × (p ≤ max ptr end) × (7 * (p - ptr) < max_bits + 7)
  unfolding read_leb_unsigned
  read_leb_unsigned_bounds ptr end v p e h = omega (arith, loop_bounds (end - ptr) 0 0 ptr v p e h)

-- Where at most five bytes that are a LEB128 encoding, padded or not, stand in the program memory
-- before the end, `ReadLEB_u32` gives the value of their groups modulo 2 ^ 32 and the address behind
-- them.
pub read_leb_u32-IsLeb :
    (flash : Flash) (bs : List ℕ) (ptr end : ℕ)
    → IsLeb bs
    → Holds flash ptr bs
    → ptr + length bs ≤ end
    → length bs ≤ 5
    → read_leb_u32 flash ptr end ≡ ok (leb_value bs % 2 ^ 32, ptr + length bs)
unfolding read_leb_u32
read_leb_u32-IsLeb flash bs ptr end l at room five =
    rw (read_leb_unsigned-IsLeb flash 32 bs ptr end l at room (omega arith) (omega arith))
      (ap (λ v. ok (v, ptr + length bs)) (omega arith))

-- Where the shortest encoding of a number below 2 ^ 32 stands in the program memory before the end,
-- `ReadLEB_u32` gives the number back and the address behind the encoding.
pub read_leb_u32-leb_bytes :
    (flash : Flash) (v ptr end : ℕ)
    → v < 2 ^ 32
    → Holds flash ptr (leb_bytes 4 v)
    → ptr + length (leb_bytes 4 v) ≤ end
    → read_leb_u32 flash ptr end ≡ ok (v, ptr + length (leb_bytes 4 v))
read_leb_u32-leb_bytes flash v ptr end h at room =
    let (l, e, n) = leb_bytes_lem 4 v (omega arith) in
    read_leb_u32-IsLeb flash (leb_bytes 4 v) ptr end l at room n
    ∙ ap (λ w. ok (w, ptr + length (leb_bytes 4 v))) (omega arith)

-- Where `ReadLEB_u32` gives a number v and an address p, v is below 2 ^ 32, and p is not below the
-- start, at most five bytes behind it, and not behind the end unless the start is.
pub read_leb_u32_bounds :
    (flash : Flash) (ptr end v p : ℕ)
    → read_leb_u32 flash ptr end ≡ ok (v, p)
    → (v < 2 ^ 32) × (ptr ≤ p) × (p ≤ ptr + 5) × (p ≤ max ptr end)
unfolding read_leb_u32
read_leb_u32_bounds flash ptr end v p e =
    let ((w, q), r, s) = >>=-eq-ok (read_leb_unsigned flash 32 ptr end) _ e in
    ground (arith, read_leb_unsigned_bounds flash 32 ptr end w q r)
