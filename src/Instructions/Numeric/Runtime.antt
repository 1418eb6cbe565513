-- ===== src/Instructions/Numeric/Runtime.antt =====
-- The handlers of src/instructions.c that call a function of the runtime, i32.mul and i32.div, and
-- those functions in src/asm.c.
use wait.Common.{
  ℕ, ◌-◌, ◌*◌, ◌/◌, ◌%◌, ◌^◌, ◌<◌, ◌≡◌, refl, arith, List, [], ◌∷◌, ltb, if◌then◌else◌,
}
use wait.Common.{
  ◌+◌, ◌≤◌, zero, suc, lt→ltb, le→ltb, Result, ok, trap, ◌==◌, ◌||◌, ◌&&◌, not, Bool, true, false,
  ◌≢◌, ◌⊎◌, inl, inr, ne→==, sym,
}
use native.Mathlib.Nat.{div-add-mod, mod-lt, div-le_self, div-lt_self}
use native.Mathlib.Decide.{dec_lt}
use wait.Asm
use wait.Asm.{asm_single_reg}
use wait.Ops.{emit_x_push_32bit, emit_x_pop_32bit}
use wait.Ops.Words.{emit_all, Emits, bind_assoc, emit2_words, pop_32, push_32, shrunk}
use wait.Avr.{disassemble}
use wait.Avr.Cpu.{Calls, Cpu, run, Ends, Leaves, bytes32, put_32}
use wait.Avr.Kept.{Holds, Keeps}
use wait.Instructions.Numeric.{Division, div_s, div_u, i32_mul, i32_div, division_callee}
use wait.Instructions.Numeric.{embed_func_umul}

unfoldable pub umul : ℕ → ℕ → ℕ
umul input1 input2 = input2 * input1 % 2 ^ 32

-- A division by zero is undefined in C.
unfoldable pub udiv : ℕ → ℕ → Result ℕ
udiv input1 input2 = if input2 == 0 then trap else ok (input1 / input2)

-- The absolute value of a pattern, and the pattern of the negated number.
abbrev pub magnitude : ℕ → ℕ
magnitude x = if ltb x (2 ^ 31) then x else 2 ^ 32 - x

abbrev negated : ℕ → ℕ
negated x = (2 ^ 32 - x) % 2 ^ 32

-- The quotient of signed patterns, rounded toward zero.
unfoldable pub signed_quotient : ℕ → ℕ → ℕ
signed_quotient input1 input2 =
    let q = magnitude input1 / magnitude input2 in
    if ltb input1 (2 ^ 31)
    then (if ltb input2 (2 ^ 31) then q else negated q)
    else (if ltb input2 (2 ^ 31) then negated q else q)

-- Undefined for a division by zero, and for -2 ^ 31 by -1, whose quotient is no i32.
unfoldable pub idiv : ℕ → ℕ → Result ℕ
unfolding signed_quotient
idiv input1 input2 =
    if input2 == 0 || (input1 == 2 ^ 31 && input2 == 2 ^ 32 - 1)
    then trap
    else ok (signed_quotient input1 input2)

unfoldable pub division : Division → ℕ → ℕ → Result ℕ
division div_s = idiv
division div_u = udiv

-- The operands that have a quotient.
abbrev pub IsDefined : Division → ℕ → ℕ → Type 0
IsDefined div_u a b = 0 < b
IsDefined div_s a b = (0 < b) × ((a ≢ 2 ^ 31) ⊎ (b ≢ 2 ^ 32 - 1))

-- The number is not negative in two's complement.
abbrev pub is_positive : ℕ → Bool
is_positive x = ltb x (2 ^ 31)

-- q is the quotient of a by b: the remainder is below the divisor, both by absolute value for signed
-- numbers, where q is 0 or has the sign that the signs of a and b make.
abbrev pub IsQuotient : Division → ℕ → ℕ → ℕ → Type 0
IsQuotient div_u a b q = (r : ℕ) × (a ≡ b * q + r) × (r < b)
IsQuotient div_s a b q =
    (r : ℕ) × (magnitude a ≡ magnitude b * magnitude q + r)
    × (r < magnitude b)
    × ((q ≡ 0) ⊎ (is_positive q ≡ (if is_positive a then is_positive b else not (is_positive b))))

-- A small number stays, a negated one has its absolute value.
positive_lem : (m : ℕ) → m < 2 ^ 31 → (magnitude m ≡ m) × (is_positive m ≡ true)
positive_lem m h = (ground arith, ground arith)

negated_lem :
    (m : ℕ)
    → m ≤ 2 ^ 31
    → (magnitude (negated m) ≡ m) × ((negated m ≡ 0) ⊎ (is_positive (negated m) ≡ false))
negated_lem zero h = (refl, inl refl)
negated_lem (suc k) h =
    let small : (2 ^ 32 - suc k) % 2 ^ 32 ≡ 2 ^ 32 - suc k = omega arith in
    rw small (ground arith, inr (ground arith))

-- A quotient of numbers up to 2 ^ 31 is 2 ^ 31 only for 2 ^ 31 by 1.
quotient_small : (a b : ℕ) → 0 < b → a ≤ 2 ^ 31 → (a ≢ 2 ^ 31) ⊎ (b ≢ 1) → a / b < 2 ^ 31
quotient_small a b h k (inl n) = let l = div-le_self a b in omega arith
quotient_small a b h k (inr n) = elim (dec_lt 0 a) [
  | yes p ↦ let two : 1 < b = omega arith in let l : a / b < a = div-lt_self p two in omega arith
  | no z ↦ let l = div-le_self a b in omega arith
]

-- The absolute value of the quotient, and its sign.
signed_quotient_lem :
    (a b : ℕ)
    → a < 2 ^ 32
    → b < 2 ^ 32
    → IsDefined div_s a b
    → (magnitude (signed_quotient a b) ≡ magnitude a / magnitude b)
      × ((signed_quotient a b ≡ 0)
          ⊎ (is_positive (signed_quotient a b)
              ≡ (if is_positive a then is_positive b else not (is_positive b))))
unfolding signed_quotient
signed_quotient_lem a b ha hb (nonzero, fits) = elim (dec_lt a (2 ^ 31)) [
  | yes pa ↦ elim (dec_lt b (2 ^ 31)) [
    | yes pb ↦
        let l = div-le_self a b in
        let (size, sign) = positive_lem (a / b) (omega arith) in
        rw (lt→ltb a (2 ^ 31) pa, lt→ltb b (2 ^ 31) pb) (size, inr sign)
    | no nb ↦
        let l = div-le_self a (2 ^ 32 - b) in
        let (size, sign) = negated_lem (a / (2 ^ 32 - b)) (omega arith) in
        rw (lt→ltb a (2 ^ 31) pa, le→ltb b (2 ^ 31) (omega arith)) (size, sign)
  ]
  | no na ↦ elim (dec_lt b (2 ^ 31)) [
    | yes pb ↦
        let l = div-le_self (2 ^ 32 - a) b in
        let (size, sign) = negated_lem ((2 ^ 32 - a) / b) (omega arith) in
        rw (le→ltb a (2 ^ 31) (omega arith), lt→ltb b (2 ^ 31) pb) (size, sign)
    | no nb ↦
        let small =
          quotient_small (2 ^ 32 - a) (2 ^ 32 - b) (omega arith) (omega arith) (elim fits [
            | inl e ↦ inl (λ q. e (omega arith))
            | inr e ↦ inr (λ q. e (omega arith))
          ]) in
        let (size, sign) = positive_lem ((2 ^ 32 - a) / (2 ^ 32 - b)) small in
        rw (le→ltb a (2 ^ 31) (omega arith), le→ltb b (2 ^ 31) (omega arith)) (size, inr sign)
  ]
]

division-IsQuotient :
    (op : Division) (a b : ℕ)
    → a < 2 ^ 32
    → b < 2 ^ 32
    → IsDefined op a b
    → (q : ℕ) × (division op a b ≡ ok q) × IsQuotient op a b q
unfolding division idiv udiv
division-IsQuotient div_u a b ha hb nonzero = (
  a / b,
  rw (ne→== b 0 (λ e. omega arith)) refl,
  (a % b, sym (div-add-mod a b), mod-lt a nonzero),
)
division-IsQuotient div_s a b ha hb (nonzero, fits) =
    let (size, sign) = signed_quotient_lem a b ha hb (nonzero, fits) in
    let m : 0 < magnitude b = ground arith in
    (
      signed_quotient a b,
      ground (arith, fits),
      (
        magnitude a % magnitude b,
        rw size (sym (div-add-mod (magnitude a) (magnitude b))),
        mod-lt (magnitude a) m,
        sign,
      ),
    )

-- The convention of avr-gcc for a call of `f`, where it is defined: the first argument is in R22 to
-- R25, the second in R18 to R21, the result in R22 to R25; R1 to R3, Y, the stack and the other memory
-- are as before.
abbrev pub Answers : Calls → ℕ → (ℕ → ℕ → Result ℕ) → Type 0
Answers calls target f =
    (c : Cpu) (a b q : ℕ)
    → a < 2 ^ 32
    → b < 2 ^ 32
    → f a b ≡ ok q
    → Holds 22 c a
    → Holds 18 c b
    → Holds 22 (calls target c) q × Keeps c (calls target c)

abbrev pub call_words : ℕ → List ℕ
call_words target = pop_32 18 (pop_32 22 (Asm.opcode_call ∷ target ∷ push_32 22 []))

unfoldable pub i32_div_words : Division → List ℕ
unfolding division_callee
i32_div_words op = call_words (division_callee op)

i32_mul-Emits : Emits i32_mul (call_words embed_func_umul) (shrunk 1)
unfolding i32_mul emit_x_push_32bit emit_x_pop_32bit emit_all
i32_mul-Emits s = simp (bind_assoc, emit2_words)

i32_div-Emits : (op : Division) → Emits (i32_div op) (i32_div_words op) (shrunk 1)
unfolding i32_div i32_div_words division_callee emit_x_push_32bit emit_x_pop_32bit emit_all
i32_div-Emits div_s s = simp (bind_assoc, emit2_words)
i32_div-Emits div_u s = simp (bind_assoc, emit2_words)

module _ (calls : Calls) (c : Cpu) (a b : ℕ) (rest : List ℕ) (ha : a < 2 ^ 32)
    (hb : b < 2 ^ 32) where
  -- Any function of the runtime that is called with `a` and `b`.
  called :
      (target : ℕ) (f : ℕ → ℕ → Result ℕ) (q : ℕ)
      → c.stack ≡ bytes32 b (bytes32 a rest)
      → f a b ≡ ok q
      → Answers calls target f
      → Ends (run calls 14 (disassemble (call_words target)) 0 c) 14 (Leaves (bytes32 q rest) c)
  unfolding run disassemble asm_single_reg
  called target f q st valid answers =
      let p : Cpu = record c { regs = put_32 (put_32 c.regs 18 b) 22 a; stack = rest } in
      let ((e₀, e₁, e₂, e₃), (l₀, l₁, l₂, l₃, l₄, l₅, l₆)) =
        answers p a b q ha hb valid (refl, refl, refl, refl) (refl, refl, refl, refl) in
      rw st (refl, (rw (e₀, e₁, e₂, e₃, l₀) refl, l₁, l₂, l₃, l₄, l₅, l₆))

  -- For a, b below 2 ^ 32 with b on top of a on the stack, where the callee answers with `umul` by
  -- the convention of avr-gcc, the handler of i32.mul emits `call_words embed_func_umul`, and this
  -- code ends with both replaced by a * b modulo 2 ^ 32; memory, R1 to R3 and Y are kept.
  pub i32_mul_lem :
      c.stack ≡ bytes32 b (bytes32 a rest)
      → Answers calls embed_func_umul (λ x y. ok (umul x y))
      → Emits i32_mul (call_words embed_func_umul) (shrunk 1)
        × Ends
            (run calls 14 (disassemble (call_words embed_func_umul)) 0 c)
            14
            (Leaves (bytes32 (a * b % 2 ^ 32) rest) c)
  unfolding umul
  i32_mul_lem st answers =
      let e : a * b ≡ b * a = omega arith in
      (
        i32_mul-Emits,
        rw e (called embed_func_umul (λ x y. ok (umul x y)) (umul a b) st refl answers),
      )

  -- For a, b below 2 ^ 32, b not 0 and on top of a on the stack, and for i32.div_s not -2 ^ 31 and -1,
  -- where the callee, called by the convention of avr-gcc, gives what `idiv` or `udiv` gives wherever
  -- that is defined, the handler of i32.div_s or i32.div_u emits `i32_div_words op`, and this code
  -- ends with both replaced by their quotient: the number q with a = b * q + r for a remainder r below
  -- b, by absolute values for i32.div_s, where q is 0 or negative just if the signs of a and b differ;
  -- memory, R1 to R3 and Y are kept.
  pub i32_div_lem :
      (op : Division)
      → c.stack ≡ bytes32 b (bytes32 a rest)
      → IsDefined op a b
      → Answers calls (division_callee op) (division op)
      → Emits (i32_div op) (i32_div_words op) (shrunk 1)
        × ((q : ℕ) × IsQuotient op a b q
            × Ends
                (run calls 14 (disassemble (i32_div_words op)) 0 c)
                14
                (Leaves (bytes32 q rest) c))
  unfolding i32_div_words
  i32_div_lem op st defined answers =
      let (q, e, quotient) = division-IsQuotient op a b ha hb defined in
      (i32_div-Emits op, (q, quotient, called (division_callee op) (division op) q st e answers))
