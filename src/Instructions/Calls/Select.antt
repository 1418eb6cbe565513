-- ===== src/Instructions/Calls/Select.antt =====
-- `select` of src/instructions.c: the words, and which of two numbers they leave on the stack.
use wait.Common.{ℕ, suc, ◌/◌, ◌%◌, ◌^◌, ◌<◌, ◌≡◌, refl, sym, List, [], ◌∷◌, Bool, true, false}
use wait.Common.{◌==◌, if◌then◌else◌, bit_or}
use wait.Asm
use wait.Asm.{asm_single_reg, asm_src_dest, asm_branch, forward}
use wait.Ops.{emit_x_push_32bit, emit_x_pop_32bit}
use wait.Ops.Words.{emit_all, Emits, bind_assoc, pop_32, push_32, shrunk}
use wait.Avr.{disassemble}
use wait.Avr.Cpu.{Calls, Cpu, run, Ends, Leaves, bytes32, put_32, write, is_high}
use wait.Avr.Kept.{Holds}
use wait.Instructions.Numeric.Bytes.{all_bytes, all_bytes_lem, cpu_with}
use wait.Instructions.Calls.{select}

abbrev pub select_words : List ℕ
select_words = pop_32 22 (
    pop_32 18 (
      asm_src_dest Asm.opcode_or 22 23
      ∷ asm_src_dest Asm.opcode_or 22 24
      ∷ asm_src_dest Asm.opcode_or 22 25
      ∷ asm_branch Asm.opcode_brne (forward 16)
      ∷ pop_32 22 (push_32 18 [])))

select-Emits : Emits select select_words (shrunk 2)
unfolding select emit_x_push_32bit emit_x_pop_32bit emit_all
select-Emits s = simp bind_assoc

-- From the branch on; the flag says whether the condition was 0.
module _ (calls : Calls) (regs memory : ℕ → ℕ) (a b : ℕ) (rest : List ℕ) where
  select-Leaves :
      (c z n s : Bool)
      → let d = cpu_with regs memory (bytes32 a rest) c z n s in
        Holds 18 d b
        → Ends
            (run calls 10 (disassemble select_words) 11 d)
            20
            (Leaves (bytes32 (if z then b else a) rest) d)
  unfolding run disassemble asm_single_reg asm_src_dest asm_branch
  select-Leaves _ true _ _ (e, f, g, h) =
      (refl, (rw (e, f, g, h) refl, refl, refl, refl, refl, refl, refl))
  select-Leaves _ false _ _ h = (refl, (refl, refl, refl, refl, refl, refl, refl))

module _ (calls : Calls) (c : Cpu) (a b condition : ℕ) (rest : List ℕ) where
  abbrev zero_bytes : ℕ
  zero_bytes = all_bytes calls c condition rest

  abbrev select_regs : ℕ → ℕ
  select_regs =
      write
        (write
          (write (put_32 (put_32 c.regs 22 condition) 18 b) 22
            (bit_or (condition % 256) (condition / 256 % 256)))
          22 (bit_or (bit_or (condition % 256) (condition / 256 % 256)) (condition / 65536 % 256)))
        22 zero_bytes

  select_reaches :
      (fuel : ℕ)
      → c.stack ≡ bytes32 condition (bytes32 b (bytes32 a rest))
      → run calls
          (suc (suc (suc (suc (suc (suc (suc (suc (suc (suc (suc fuel)))))))))))
          (disassemble select_words)
          0
          c
        ≡ run calls fuel (disassemble select_words) 11 (
            cpu_with select_regs c.memory
              (bytes32 a rest)
              c.carry
              (zero_bytes == 0)
              (is_high zero_bytes)
              (is_high zero_bytes))
  unfolding run disassemble asm_single_reg asm_src_dest asm_branch
  select_reaches fuel st = rw st refl

  -- With a condition below 2 ^ 32 on top of b and b on top of a on the stack, the handler of select
  -- emits `select_words` and lowers `stack_top` by 2, and this code ends with the three replaced by
  -- b if the condition is 0 and by a if not; memory, R1 to R3 and Y are kept.
  pub select_lem :
      c.stack ≡ bytes32 condition (bytes32 b (bytes32 a rest))
      → condition < 2 ^ 32
      → Emits select select_words (shrunk 2)
        × Ends
            (run calls 21 (disassemble select_words) 0 c)
            20
            (Leaves (bytes32 (if condition == 0 then b else a) rest) c)
  select_lem st h = (
    select-Emits,
    rw (select_reaches 10 st, sym (all_bytes_lem calls c condition rest h))
        (select-Leaves calls select_regs c.memory a b rest _ _ _ _ (refl, refl, refl, refl)),
  )
