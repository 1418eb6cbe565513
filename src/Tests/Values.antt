-- ===== src/Tests/Values.antt =====
-- Runs of the code for `select` and for the widening of loaded numbers.
use wait.Common.{ℕ, refl, List, [], length, arith}
use wait.Common.{true, false}
use wait.Ops.Words.{Emits, shrunk}
use wait.Avr.{disassemble}
use wait.Avr.Cpu.{Cpu, Calls, run, Ends, Leaves, bytes32, put_32}
use wait.Avr.Kept.{Holds, Keeps}
use wait.Instructions.Calls.{select}
use wait.Instructions.Calls.Select.{select_words, select_lem}
use wait.Instructions.Loads.{extend, half_signed}
use wait.Instructions.Loads.Extend.{extended, extend_words, extend_lem}

abbrev no_calls : Calls
no_calls target c = c

abbrev cpu : List ℕ → Cpu
cpu stack = record {
  regs = put_32 (λ r. 0) 22 0x12348765;
  carry = true;
  zeroed = true;
  negative = false;
  sign = false;
  stack = stack;
  memory = λ a. 0;
}

-- The condition 256 on top of 7 and 1000.
abbrev choice : Cpu
choice = cpu (bytes32 256 (bytes32 7 (bytes32 1000 [])))

select_lem_example :
    Emits select select_words (shrunk 2)
    × Ends
        (run no_calls 21 (disassemble select_words) 0 choice)
        20
        (Leaves (bytes32 1000 []) choice)
select_lem_example = select_lem no_calls choice 1000 7 256 [] refl (omega arith)

extend_lem_example :
    Emits (extend half_signed) (extend_words half_signed) (λ s. s)
    × Ends
        (run no_calls 10 (disassemble (extend_words half_signed)) 0 (cpu []))
        (length (extend_words half_signed))
        (λ e. Holds 22 e (extended half_signed 0x12348765) × Keeps (cpu []) e)
extend_lem_example =
    extend_lem no_calls (cpu []) 0x12348765 (refl, refl, refl, refl) half_signed refl
