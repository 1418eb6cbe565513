-- ===== src/Instructions/Numeric/Bytes.antt =====
-- The handlers of src/instructions.c for i32.and, i32.or, i32.xor and i32.eqz: the words, and what
-- the processor computes with them.
use wait.Common.{
  ℕ, zero, suc, ◌+◌, ◌*◌, ◌/◌, ◌%◌, ◌^◌, ◌<◌, ◌≤◌, ◌≡◌, refl, sym, ap, ◌∙◌, List, [], ◌∷◌, arith,
}
use wait.Common.{Bool, true, false, ◌==◌, bit_and, bit_or, bit_xor}
use wait.Common.{and_halves, or_halves, zero-bit_or, xor_halves, byte_of, low_256}
use Prim.Native.Nat.{min, max, differ}
use wait.Asm
use wait.Asm.{asm_single_reg, asm_src_dest, asm_immediate, asm_branch, forward}
use wait.Ops.{emit_x_push_32bit, emit_x_pop_32bit}
use wait.Ops.Words.{
  emit_all, Emits, bind_assoc, bind_unit, pop_32, push_32, bytewise_words, load_words, shrunk,
}
use wait.Avr.{disassemble}
use wait.Avr.Flags.{equal_iff}
use wait.Avr.Cpu.{Calls, Cpu, run, Ends, Leaves, bytes32, bit, is_high, write}
use wait.Instructions.Numeric.{Logic, and_, or_, xor_, i32_logic, logic_opcode, i32_eqz}

-- The operation on patterns.
unfoldable pub logic_value : Logic → ℕ → ℕ → ℕ
logic_value and_ a b = bit_and a b
logic_value or_ a b = bit_or a b
logic_value xor_ a b = bit_xor a b

unfoldable pub logic_digit : Logic → ℕ → ℕ → ℕ
logic_digit and_ a b = min a b
logic_digit or_ a b = max a b
logic_digit xor_ a b = differ a b

logic_value_step :
    (op : Logic) (a b : ℕ)
    → logic_value op a b ≡ logic_value op (a / 2) (b / 2) * 2 + logic_digit op (a % 2) (b % 2)
unfolding logic_value logic_digit
logic_value_step and_ a b = and_halves a b
logic_value_step or_ a b = or_halves a b
logic_value_step xor_ a b = xor_halves a b

logic_digit_bound : (op : Logic) (x y : ℕ) → x < 2 → y < 2 → logic_digit op x y < 2
unfolding logic_digit
logic_digit_bound and_ x y p q = omega arith
logic_digit_bound or_ x y p q = omega arith
logic_digit_bound xor_ zero y p q = q
logic_digit_bound xor_ (suc x) zero p q = p
logic_digit_bound xor_ (suc zero) (suc zero) p q = omega arith
logic_digit_bound xor_ (suc zero) (suc (suc y)) p q = absurd (omega arith)
logic_digit_bound xor_ (suc (suc x)) (suc y) p q = absurd (omega arith)

logic_value_zero : (op : Logic) → logic_value op 0 0 ≡ 0
unfolding logic_value
logic_value_zero and_ = refl
logic_value_zero or_ = refl
logic_value_zero xor_ = refl

logic_byte :
    (op : Logic) (k a b : ℕ)
    → logic_value op a b / 2 ^ k % 256 ≡ logic_value op (a / 2 ^ k % 256) (b / 2 ^ k % 256)
logic_byte op =
    byte_of (logic_value op) (logic_digit op) (logic_value_step op) (logic_digit_bound op)
      (logic_value_zero op)

unfoldable pub i32_logic_words : Logic → List ℕ
unfolding logic_opcode
i32_logic_words op =
    pop_32 22 (pop_32 18 (bytewise_words (logic_opcode op) (logic_opcode op) 22 18 (push_32 22 [])))

i32_logic-Emits : (op : Logic) → Emits (i32_logic op) (i32_logic_words op) (shrunk 1)
unfolding i32_logic i32_logic_words logic_opcode emit_x_push_32bit emit_x_pop_32bit emit_all
i32_logic-Emits and_ s = simp bind_assoc
i32_logic-Emits or_ s = simp bind_assoc
i32_logic-Emits xor_ s = simp bind_assoc

logic_bytes :
    (op : Logic) (a b : ℕ) (rest : List ℕ)
    → ◌≡◌ {A = List ℕ}
        (logic_value op (b % 256) (a % 256)
          ∷ logic_value op (b / 256 % 256) (a / 256 % 256)
          ∷ logic_value op (b / 65536 % 256) (a / 65536 % 256)
          ∷ logic_value op (b / 16777216 % 256) (a / 16777216 % 256)
          ∷ rest)
        (bytes32 (logic_value op b a) rest)
logic_bytes op a b rest =
    let e₀ : logic_value op b a % 256 ≡ logic_value op (b % 256) (a % 256) =
      low_256 (logic_value op) (logic_digit op) (logic_value_step op) (logic_digit_bound op)
        (logic_value_zero op) b a in
    cc (e₀, logic_byte op 8 b a, logic_byte op 16 b a, logic_byte op 24 b a)

abbrev pub i32_eqz_words : List ℕ
i32_eqz_words = pop_32 18 (
    load_words 1 0 0 0 (
      asm_src_dest Asm.opcode_or 18 19
      ∷ asm_src_dest Asm.opcode_or 18 20
      ∷ asm_src_dest Asm.opcode_or 18 21
      ∷ asm_branch Asm.opcode_breq (forward 2)
      ∷ asm_immediate Asm.opcode_ldi 22 0
      ∷ push_32 22 []))

i32_eqz-Emits : Emits i32_eqz i32_eqz_words (λ s. s)
unfolding i32_eqz emit_x_push_32bit emit_x_pop_32bit emit_all
i32_eqz-Emits s = simp (bind_assoc, bind_unit)

abbrev pub cpu_with : (ℕ → ℕ) → (ℕ → ℕ) → List ℕ → Bool → Bool → Bool → Bool → Cpu
cpu_with regs memory stack c z n s = record {
  regs = regs;
  carry = c;
  zeroed = z;
  negative = n;
  sign = s;
  stack = stack;
  memory = memory;
}

-- From the branch on; the flag of the last OR says whether all bytes were 0.
module _ (calls : Calls) (regs memory : ℕ → ℕ) (stack : List ℕ) where
  eqz_pushes :
      (c z n s : Bool)
      → regs 22 ≡ 1
      → regs 23 ≡ 0
      → regs 24 ≡ 0
      → regs 25 ≡ 0
      → let d = cpu_with regs memory stack c z n s in
        Ends (run calls 7 (disassemble i32_eqz_words) 11 d) 17 (Leaves (bytes32 (bit z) stack) d)
  unfolding run disassemble asm_single_reg asm_src_dest asm_immediate asm_branch
  eqz_pushes _ true _ _ e f g h = (refl, (rw (e, f, g, h) refl, refl, refl, refl, refl, refl, refl))
  eqz_pushes _ false _ _ e f g h = (refl, (rw (f, g, h) refl, refl, refl, refl, refl, refl, refl))

bit_or_none_fuel : (n x y : ℕ) → x ≤ n → bit_or x y ≡ 0 → (x ≡ 0) × (y ≡ 0)
bit_or_none_fuel zero x y h e =
    let x0 : x ≡ 0 = omega arith in
    (x0, sym (zero-bit_or y) ∙ ap (λ (t : ℕ). bit_or t y) (sym x0) ∙ e)
bit_or_none_fuel (suc n) x y h e = ground (arith, or_halves x y, bit_or_none_fuel n (x / 2) (y / 2))

bit_or_none : (x y : ℕ) → bit_or x y ≡ 0 → (x ≡ 0) × (y ≡ 0)
bit_or_none x y e = bit_or_none_fuel x x y (omega arith) e

module _ (calls : Calls) (c : Cpu) (a b : ℕ) (rest : List ℕ) where
  -- For i32.and, i32.or and i32.xor with b on top of a on the stack, the handler emits
  -- `i32_logic_words op`, and this code ends with both replaced by the operation on b and a as
  -- 32-bit patterns; memory, R1 to R3 and Y are kept.
  pub i32_logic_lem :
      (op : Logic)
      → c.stack ≡ bytes32 b (bytes32 a rest)
      → Emits (i32_logic op) (i32_logic_words op) (shrunk 1)
        × Ends
            (run calls 17 (disassemble (i32_logic_words op)) 0 c)
            16
            (Leaves (bytes32 (logic_value op b a) rest) c)
  unfolding run disassemble asm_single_reg asm_src_dest i32_logic_words logic_opcode logic_value
  i32_logic_lem and_ st = (
    i32_logic-Emits and_,
    rw st (refl, (logic_bytes and_ a b rest, refl, refl, refl, refl, refl, refl)),
  )
  i32_logic_lem or_ st = (
    i32_logic-Emits or_,
    rw st (refl, (logic_bytes or_ a b rest, refl, refl, refl, refl, refl, refl)),
  )
  i32_logic_lem xor_ st = (
    i32_logic-Emits xor_,
    rw st (refl, (logic_bytes xor_ a b rest, refl, refl, refl, refl, refl, refl)),
  )

module _ (calls : Calls) (c : Cpu) (a : ℕ) (rest : List ℕ) where
  abbrev pub all_bytes : ℕ
  all_bytes =
      bit_or (bit_or (bit_or (a % 256) (a / 256 % 256)) (a / 65536 % 256)) (a / 16777216 % 256)

  abbrev eqz_regs : ℕ → ℕ
  eqz_regs =
      write
        (write
          (write
            (write
              (write
                (write
                  (write
                    (write
                      (write (write (write c.regs 18 (a % 256)) 19 (a / 256 % 256)) 20
                        (a / 65536 % 256))
                      21 (a / 16777216 % 256))
                    22 1)
                  23 0)
                24 0)
              25 0)
            18 (bit_or (a % 256) (a / 256 % 256)))
          18 (bit_or (bit_or (a % 256) (a / 256 % 256)) (a / 65536 % 256)))
        18 all_bytes

  eqz_reaches :
      (fuel : ℕ)
      → c.stack ≡ bytes32 a rest
      → run calls
          (suc (suc (suc (suc (suc (suc (suc (suc (suc (suc (suc fuel)))))))))))
          (disassemble i32_eqz_words)
          0
          c
        ≡ run calls fuel (disassemble i32_eqz_words) 11 (
            cpu_with eqz_regs c.memory rest c.carry
              (all_bytes == 0)
              (is_high all_bytes)
              (is_high all_bytes))
  unfolding run disassemble asm_single_reg asm_src_dest asm_immediate asm_branch
  eqz_reaches fuel st = rw st refl

  pub all_bytes_lem : a < 2 ^ 32 → (all_bytes == 0) ≡ (a == 0)
  all_bytes_lem h =
      equal_iff all_bytes 0 a 0
        (λ e.
          let (p, e₃) = bit_or_none _ _ e in
          let (q, e₂) = bit_or_none _ _ p in let (e₀, e₁) = bit_or_none _ _ q in omega arith)
        (λ e. rw e refl)

  -- With a below 2 ^ 32 on top of the stack, the handler of i32.eqz emits `i32_eqz_words` and
  -- changes nothing else, and this code ends with a replaced by 1 if it is 0 and by 0 if not;
  -- memory, R1 to R3 and Y are kept.
  pub i32_eqz_lem :
      c.stack ≡ bytes32 a rest
      → a < 2 ^ 32
      → Emits i32_eqz i32_eqz_words (λ s. s)
        × Ends
            (run calls 18 (disassemble i32_eqz_words) 0 c)
            17
            (Leaves (bytes32 (bit (a == 0)) rest) c)
  i32_eqz_lem st h = (
    i32_eqz-Emits,
    rw (eqz_reaches 7 st, sym (all_bytes_lem h))
        (eqz_pushes calls eqz_regs c.memory rest _ _ _ _ refl refl refl refl),
  )
