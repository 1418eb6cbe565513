-- ===== src/Tests/Code.antt =====
-- Runs of the code that the handlers of src/instructions.c emit.
use wait.Common.{ℕ, ◌≢◌, panic, trap, inl}
use wait.Common.{
  ℕ, ◌+◌, ◌-◌, ◌*◌, ◌/◌, ◌%◌, ◌^◌, ◌≤◌, ◌<◌, ◌≡◌, refl, List, [], ◌∷◌, ◌++◌, length, arith, ◌==◌,
}
use wait.Common.{Result, ok, true, false}
use wait.Common
use wait.Leb.{read_leb_i32}
use wait.Leb.Signed.{read_leb_i32_negative}
use wait.Wkreprog.{Writer}
use wait.Emit.{State}
use wait.Ops.Words.{Emits, emit_all, shrunk, grown}
use wait.Avr.{disassemble}
use wait.Avr.Cpu.{Cpu, Calls, run, Ends, Leaves, bytes32, put_32}
use wait.Avr.Kept.{Holds}
use wait.Instructions.Numeric.{i32_add, i32_sub, i32_compare, lt_s, i32_logic, xor_, i32_const}
use wait.Instructions.Numeric.{shl, i32_shift, shr_s, i32_div, div_s, division_callee}
use wait.Instructions.Numeric.Sums.{i32_add_words, i32_sub_words, i32_add_lem, i32_sub_lem}
use wait.Instructions.Numeric.Compare.{i32_compare_words, i32_compare_lem, compare}
use wait.Instructions.Numeric.Bytes.{logic_value, i32_logic_words, i32_logic_lem}
use wait.Instructions.Numeric.ShiftLoop.{i32_shift_words, shift_value}
use wait.Instructions.Numeric.Shifts.{i32_shift_logical}
use wait.Instructions.Numeric.Constants.{i32_const_words, i32_const_lem}
use wait.Instructions.Numeric.Runtime.{division, Answers, IsQuotient, i32_div_words}
use wait.Instructions.Numeric.Runtime.{i32_div_lem}

abbrev no_calls : Calls
no_calls target c = c

abbrev cpu : List ℕ → Cpu
cpu stack = record {
  regs = λ r. 0;
  carry = false;
  zeroed = false;
  negative = false;
  sign = false;
  stack = stack;
  memory = λ a. 0;
}

-- -2 below 5.
abbrev two_numbers : Cpu
two_numbers = cpu (bytes32 5 (bytes32 4294967294 []))

i32_compare_lem_example :
    Emits (i32_compare lt_s) (i32_compare_words lt_s) (shrunk 1)
    × Ends
        (run no_calls 25 (disassemble (i32_compare_words lt_s)) 0 two_numbers)
        22
        (Leaves (bytes32 1 []) two_numbers)
unfolding compare
i32_compare_lem_example =
    i32_compare_lem no_calls two_numbers 4294967294 5 [] lt_s refl (omega arith) (omega arith)

i32_add_lem_example :
    Emits i32_add i32_add_words (shrunk 1)
    × Ends
        (run no_calls 17 (disassemble i32_add_words) 0 two_numbers)
        16
        (Leaves (bytes32 3 []) two_numbers)
i32_add_lem_example = i32_add_lem no_calls two_numbers 4294967294 5 [] refl

i32_sub_lem_example :
    Emits i32_sub i32_sub_words (shrunk 1)
    × Ends
        (run no_calls 17 (disassemble i32_sub_words) 0 two_numbers)
        16
        (Leaves (bytes32 4294967289 []) two_numbers)
i32_sub_lem_example =
    i32_sub_lem no_calls two_numbers 4294967294 5 [] refl (omega arith) (omega arith)

i32_logic_lem_example :
    Emits (i32_logic xor_) (i32_logic_words xor_) (shrunk 1)
    × Ends
        (run no_calls 17 (disassemble (i32_logic_words xor_)) 0 two_numbers)
        16
        (Leaves (bytes32 (logic_value xor_ 5 4294967294) []) two_numbers)
i32_logic_lem_example = i32_logic_lem no_calls two_numbers 4294967294 5 [] xor_ refl

not_signed : shl ≢ shr_s
not_signed e = cc

-- -10 by one place to the right is -5.
abbrev minus_ten : Cpu
minus_ten = cpu (bytes32 1 (bytes32 4294967286 []))

minus_five : shift_value shr_s 1 4294967286 ≡ 4294967291
unfolding shift_value
minus_five = refl

i32_shift_logical_example :
    Emits (i32_shift shl) (i32_shift_words shl) (shrunk 1)
    × Ends
        (run no_calls (16 + 6 * (5 % 256)) (disassemble (i32_shift_words shl)) 0 two_numbers)
        19
        (Leaves (bytes32 (shift_value shl (5 % 256) 4294967294) []) two_numbers)
i32_shift_logical_example =
    i32_shift_logical no_calls two_numbers 4294967294 5 [] shl not_signed refl (omega arith)
      (omega arith)

-- A runtime that computes `f` on the registers, whatever is called, and 0 where `f` is undefined.
abbrev number : ℕ → Cpu → ℕ
number r c = c.regs r + c.regs (r + 1) * 256 + c.regs (r + 2) * 65536 + c.regs (r + 3) * 16777216

abbrev value_or : Result ℕ → ℕ
value_or (ok v) = v
value_or panic = 0
value_or trap = 0

abbrev answering : (ℕ → ℕ → Result ℕ) → Calls
answering f target c = record c {
  regs = put_32 c.regs 22 (value_or (f (number 22 c) (number 18 c)));
}

number-Holds : (r : ℕ) (c : Cpu) (v : ℕ) → v < 2 ^ 32 → Holds r c v → number r c ≡ v
number-Holds r c v h (e₀, e₁, e₂, e₃) = omega arith

answering-Answers : (f : ℕ → ℕ → Result ℕ) (target : ℕ) → Answers (answering f) target f
answering-Answers f target c a b q ha hb valid h k =
    let e = number-Holds 22 c a ha h in
    let g = number-Holds 18 c b hb k in
    (rw (e, g, valid) (refl, refl, refl, refl), (refl, refl, refl, refl, refl, refl, refl))

-- -2 by 5.
i32_div_lem_example :
    Emits (i32_div div_s) (i32_div_words div_s) (shrunk 1)
    × ((q : ℕ) × IsQuotient div_s 4294967294 5 q
        × Ends
            (run (answering (division div_s)) 14 (disassemble (i32_div_words div_s)) 0 two_numbers)
            14
            (Leaves (bytes32 q []) two_numbers))
i32_div_lem_example =
    i32_div_lem (answering (division div_s)) two_numbers 4294967294 5 [] (omega arith) (omega arith)
      div_s refl (omega arith, inl (λ e. omega arith))
      (answering-Answers (division div_s) (division_callee div_s))

-- The operand -2 at address 0.
abbrev writer : Writer
writer = record {
  rom = λ a. 0x7e;
  pagebuffer = λ i. 0;
  pageaddress = 512;
  end_of_safe_region = 4096;
  buf_len = 0;
}

abbrev state : State
state = record {
  buffer = [];
  pc = 0;
  stack_top = 0;
  wasm_globals_size = 0;
  wasm_mem_space = 0x200;
  next_id = 0;
  top = 0;
  block_label = [];
  block_stack = [];
  block_type = [];
  block_pc = [];
  writer = writer;
  start = 0;
}

reads : read_leb_i32 (λ a. 0x7e) 0 10 ≡ ok (4294967294, 1)
reads =
    read_leb_i32_negative (λ a. 0x7e) (0x7e ∷ []) 0 10 2 (omega arith) refl (refl, tt) (omega arith)
      (omega arith) refl (omega arith) (omega arith)

i32_const_lem_example :
    (i32_const 10 state
      ≡ Common.◌>>=◌
          (emit_all (i32_const_words 4294967294) (record state { start = 1 }))
          (λ r. ok (tt, grown 1 r.1)))
    × Ends
        (run no_calls 9 (disassemble (i32_const_words 4294967294)) 0 two_numbers)
        8
        (Leaves (bytes32 4294967294 two_numbers.stack) two_numbers)
i32_const_lem_example = i32_const_lem no_calls two_numbers state 10 4294967294 1 reads
