-- ===== src/Instructions/Numeric/Sums.antt =====
-- i32.add and i32.sub: the words, and what the processor computes with them.
use wait.Common.{ℕ, ◌+◌, ◌-◌, ◌%◌, ◌^◌, ◌<◌, ◌≡◌, refl, List, []}
use wait.Asm
use wait.Asm.{asm_single_reg, asm_src_dest, asm_immediate}
use wait.Ops.{emit_x_push_32bit, emit_x_pop_32bit}
use wait.Ops.Words.{emit_all, Emits, bind_assoc, pop_32, push_32, bytewise_words}
use wait.Ops.Words.{shrunk}
use wait.Avr.{disassemble}
use wait.Avr.Cpu.{Cpu, Calls, run, Ends, Leaves, bytes32}
use wait.Avr.Long.{add_bytes, sub_bytes}
use wait.Instructions.Numeric.{i32_add, i32_sub}

abbrev pub i32_add_words : List ℕ
i32_add_words =
    pop_32 22 (pop_32 18 (bytewise_words Asm.opcode_add Asm.opcode_adc 22 18 (push_32 22 [])))

abbrev pub i32_sub_words : List ℕ
i32_sub_words =
    pop_32 18 (pop_32 22 (bytewise_words Asm.opcode_sub Asm.opcode_sbc 22 18 (push_32 22 [])))

pub i32_add-Emits : Emits i32_add i32_add_words (shrunk 1)
unfolding i32_add emit_x_push_32bit emit_x_pop_32bit emit_all
i32_add-Emits s = simp bind_assoc

pub i32_sub-Emits : Emits i32_sub i32_sub_words (shrunk 1)
unfolding i32_sub emit_x_push_32bit emit_x_pop_32bit emit_all
i32_sub-Emits s = simp bind_assoc

module _ (calls : Calls) (c : Cpu) (a b : ℕ) (rest : List ℕ) where
  -- With b on top of a on the stack, the handler of i32.add emits `i32_add_words`, and this code
  -- ends with both replaced by a + b modulo 2 ^ 32; memory, R1 to R3 and Y are kept.
  pub i32_add_lem :
      c.stack ≡ bytes32 b (bytes32 a rest)
      → Emits i32_add i32_add_words (shrunk 1)
        × Ends
            (run calls 17 (disassemble i32_add_words) 0 c)
            16
            (Leaves (bytes32 ((a + b) % 2 ^ 32) rest) c)
  unfolding run disassemble asm_single_reg asm_src_dest
  i32_add_lem st =
      (i32_add-Emits, rw st (refl, (add_bytes b a rest, refl, refl, refl, refl, refl, refl)))

  -- For a, b below 2 ^ 32 with b on top of a on the stack, the handler of i32.sub emits
  -- `i32_sub_words`, and this code ends with both replaced by a - b modulo 2 ^ 32; memory, R1 to R3
  -- and Y are kept.
  pub i32_sub_lem :
      c.stack ≡ bytes32 b (bytes32 a rest)
      → a < 2 ^ 32
      → b < 2 ^ 32
      → Emits i32_sub i32_sub_words (shrunk 1)
        × Ends
            (run calls 17 (disassemble i32_sub_words) 0 c)
            16
            (Leaves (bytes32 ((a + 2 ^ 32 - b) % 2 ^ 32) rest) c)
  unfolding run disassemble asm_single_reg asm_src_dest
  i32_sub_lem st ha hb =
      (i32_sub-Emits, rw st (refl, (sub_bytes a b ha hb rest, refl, refl, refl, refl, refl, refl)))
