-- ===== src/Compile/Functions/Ahead/Readers.antt =====
-- Reading an operand does not bring the cursor back.
use wait.Common.{ℕ, zero, suc, ◌+◌, ◌-◌, ◌≤◌, ◌≡◌, Result, ok, arith, >>=-eq-ok}
use wait.Leb.{
  Flash, read_leb_unsigned, read_leb_unsigned_loop, read_leb_signed, read_leb_signed_loop,
}
use wait.Leb.{read_leb_u32, read_leb_i7, read_leb_i32, read_leb_i64, or_group}
use wait.Instructions.{
  read_with, read_operand_u32, read_operand_i32, read_operand_i64, read_block_type,
}
use wait.Compile.Functions.Ahead.{Ahead, Ahead-bind, Ahead-pure}

-- A reader that ends where it began or behind.
abbrev Advances : (Flash → ℕ → ℕ → Result (ℕ × ℕ)) → Type 0
Advances reader = (flash : Flash) (ptr end v p : ℕ) → reader flash ptr end ≡ ok (v, p) → ptr ≤ p

module _ (flash : Flash) (max_bits : ℕ) where
  unsigned_loop_advances :
      (left value shift ptr v p : ℕ)
      → read_leb_unsigned_loop flash max_bits left value shift ptr ≡ ok (v, p)
      → ptr ≤ p
  unfolding read_leb_unsigned_loop
  unsigned_loop_advances zero value shift ptr v p e = ground arith
  unsigned_loop_advances (suc left) value shift ptr v p e = ground (
    arith,
    unsigned_loop_advances left (or_group value (flash ptr) shift) (shift + 7) (ptr + 1) v p,
  )

  signed_loop_advances :
      (left value shift ptr v p : ℕ)
      → read_leb_signed_loop flash max_bits left value shift ptr ≡ ok (v, p)
      → ptr ≤ p
  unfolding read_leb_signed_loop
  signed_loop_advances zero value shift ptr v p e = ground arith
  signed_loop_advances (suc left) value shift ptr v p e = ground (
    arith,
    signed_loop_advances left (or_group value (flash ptr) shift) (shift + 7) (ptr + 1) v p,
  )

  pub read_leb_signed-Advances :
      (ptr end v p : ℕ) → read_leb_signed flash max_bits ptr end ≡ ok (v, p) → ptr ≤ p
  unfolding read_leb_signed
  read_leb_signed-Advances ptr end v p = signed_loop_advances (end - ptr) 0 0 ptr v p

  pub read_leb_unsigned-Advances :
      (ptr end v p : ℕ) → read_leb_unsigned flash max_bits ptr end ≡ ok (v, p) → ptr ≤ p
  unfolding read_leb_unsigned
  read_leb_unsigned-Advances ptr end v p = unsigned_loop_advances (end - ptr) 0 0 ptr v p

u32-Advances : Advances read_leb_u32
unfolding read_leb_u32
u32-Advances flash ptr end v p e =
    let ((w, q), r, s) = >>=-eq-ok (read_leb_unsigned flash 32 ptr end) _ e in
    ground (arith, read_leb_unsigned-Advances flash 32 ptr end w q r)

i7-Advances : Advances read_leb_i7
unfolding read_leb_i7
i7-Advances flash ptr end v p e =
    let ((w, q), r, s) = >>=-eq-ok (read_leb_signed flash 7 ptr end) _ e in
    ground (arith, read_leb_signed-Advances flash 7 ptr end w q r)

i32-Advances : Advances read_leb_i32
unfolding read_leb_i32
i32-Advances flash ptr end v p e =
    let ((w, q), r, s) = >>=-eq-ok (read_leb_signed flash 32 ptr end) _ e in
    ground (arith, read_leb_signed-Advances flash 32 ptr end w q r)

i64-Advances : Advances read_leb_i64
unfolding read_leb_i64
i64-Advances flash ptr end v p e =
    let ((w, q), r, s) = >>=-eq-ok (read_leb_signed flash 64 ptr end) _ e in
    ground (arith, read_leb_signed-Advances flash 64 ptr end w q r)

module _ (n : ℕ) where
  read_with-Ahead :
      (reader : Flash → ℕ → ℕ → Result (ℕ × ℕ)) (end : ℕ)
      → Advances reader
      → Ahead n (read_with reader end)
  read_with-Ahead reader end advances = record {
    ahead = λ s h a t e.
        let ((v, p), e1, e2) = >>=-eq-ok (reader s.writer.rom s.start end) _ e in
        let further = advances s.writer.rom s.start end v p e1 in
        let here : p ≡ t.start = cc in omega arith;
  }

  pub Ahead-u32 : (end : ℕ) → Ahead n (read_operand_u32 end)
  Ahead-u32 end = read_with-Ahead read_leb_u32 end u32-Advances

  pub Ahead-i32 : (end : ℕ) → Ahead n (read_operand_i32 end)
  Ahead-i32 end = read_with-Ahead read_leb_i32 end i32-Advances

  pub Ahead-i64 : (end : ℕ) → Ahead n (read_operand_i64 end)
  Ahead-i64 end = read_with-Ahead read_leb_i64 end i64-Advances

  pub Ahead-block_type : (end : ℕ) → Ahead n (read_block_type end)
  Ahead-block_type end =
      Ahead-bind n (read_with read_leb_i7 end) _ (read_with-Ahead read_leb_i7 end i7-Advances)
        (λ a. Ahead-pure n _)

pub ruleset reading_rules = (Ahead-u32, Ahead-i32, Ahead-i64, Ahead-block_type)
