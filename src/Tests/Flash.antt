-- ===== src/Tests/Flash.antt =====
-- Runs of the page writer of src/wkreprog_impl.c and of the emitter of src/rtc_emit.c.
use wait.Common.{ℕ, ◌+◌, ◌-◌, ◌*◌, ◌%◌, ◌≤◌, ◌≡◌, refl, List, [], ◌∷◌, ◌++◌, get_or, arith}
use wait.Common.{ok, true, false, drop, replicate}
use wait.Wkreprog.{Writer, write, open_raw, close, get_raw_position}
use wait.Wkreprog.Pages.{IsOpen, overwritten}
use wait.Wkreprog.View.{session_overwrites}
use wait.Wkreprog.View.{WriteOutcome, write_cases}
use wait.Emit.{State, push_pop, rtc_optimise, optimise_round, emit_raw_word}
use wait.Emit.{starts_with}
use wait.Emit.Optimise.{Optimised, rtc_optimise-Optimised, push_pop-idle}
use wait.Emit.Labels.{label_behind}
use wait.Emit.Position.{IsReady, Moves, code_end, emit_raw_word_lem}
use wait.Avr.{disassemble}
use wait.Avr.Cpu.{Cpu, Calls, run, Ends}

-- A writer at byte 250 of the page at 512, before a region that ends at 4096.
abbrev writer : Writer
writer = record {
  rom = λ a. a % 256;
  pagebuffer = λ i. i;
  pageaddress = 512;
  end_of_safe_region = 4096;
  buf_len = 250;
}

writer-IsOpen : IsOpen writer
writer-IsOpen = record { short = omega arith; clean = λ i h k. omega arith }

abbrev bytes : List ℕ
bytes = 1 ∷ 2 ∷ 3 ∷ 4 ∷ 5 ∷ 6 ∷ 7 ∷ 8 ∷ 9 ∷ 10 ∷ []

session_overwrites_example :
    (s' : Writer) × (write false 10 bytes (open_raw 762 4096 writer) ≡ ok s')
    × ((a : ℕ) → (close s').rom a ≡ overwritten writer.rom 762 10 bytes a)
session_overwrites_example =
    session_overwrites 762 4096 10 bytes writer (omega arith) (omega arith) (omega arith)

write_cases_example : WriteOutcome 3400 bytes writer
write_cases_example =
    write_cases 3400 bytes writer writer-IsOpen (omega arith)
      (unfold get_raw_position in omega arith)

-- A stretch to remove, between two words.
abbrev words : List ℕ
words = 0x0000 ∷ push_pop ++ (0x9508 ∷ [])

abbrev state : List ℕ → State
state buffer = record {
  buffer = buffer;
  pc = 100;
  stack_top = 0;
  wasm_globals_size = 8;
  wasm_mem_space = 0x200;
  next_id = 2;
  top = 0;
  block_label = [];
  block_stack = [];
  block_type = [];
  block_pc = 82 ∷ 98 ∷ [];
  writer = writer;
  start = 0;
}

rtc_optimise-Optimised_example : (n : ℕ) × Optimised n (state words) (rtc_optimise (state words))
rtc_optimise-Optimised_example = rtc_optimise-Optimised (state words)

label_behind_example :
    (get_or (optimise_round 1 (state words)).block_pc 1 0 ≡ 80 + 2 * (9 - 8))
    × (drop (9 - 8) (optimise_round 1 (state words)).buffer ≡ drop 9 words)
unfolding starts_with
label_behind_example =
    label_behind 1 9 1 80 (state words) refl (omega arith) (omega arith) (omega arith) (omega arith)
      (omega arith) refl (omega arith) (omega arith)

state-IsReady : IsReady (state words)
state-IsReady = record {
  opened = writer-IsOpen;
  placed = unfold get_raw_position in omega arith;
  short = omega arith;
}

emit_raw_word_lem_example :
    (s' : State) × (emit_raw_word 0x9508 (state words) ≡ ok (tt, s'))
    × IsReady s'
    × (code_end s' ≤ code_end (state words) + 2)
    × (s'.writer.end_of_safe_region ≡ 4096)
    × Moves (state words) s'
emit_raw_word_lem_example =
    emit_raw_word_lem 0x9508 (state words) state-IsReady (unfold get_raw_position in omega arith)

abbrev returns : List ℕ
returns = replicate 200 0x9508

abbrev no_calls : Calls
no_calls target c = c

abbrev cpu : Cpu
cpu = record {
  regs = λ r. r;
  carry = true;
  zeroed = false;
  negative = false;
  sign = true;
  stack = 1 ∷ 2 ∷ [];
  memory = λ a. 0;
}

push_pop-idle_example : Ends (run no_calls 9 (disassemble push_pop) 0 cpu) 8 (λ d.
    (d.stack ≡ cpu.stack)
    × ((r : ℕ) → d.regs r ≡ cpu.regs r)
    × (d.carry ≡ cpu.carry)
    × (d.zeroed ≡ cpu.zeroed)
    × (d.negative ≡ cpu.negative)
    × (d.sign ≡ cpu.sign)
    × (d.memory ≡ cpu.memory))
push_pop-idle_example = push_pop-idle no_calls cpu
