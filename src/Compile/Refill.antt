-- ===== src/Compile/Refill.antt =====
-- src/compile.c: `branch_pc_refill`, the second pass over the compiled code, which puts addresses in
-- the place of the labels of jumps and of the numbers of called functions.
pub mod Round
pub mod Words
pub mod Resolved
use wait.Common.{ℕ, zero, suc, ◌+◌, ◌*◌, ◌/◌, ◌%◌, ◌^◌, Bool, true, ◌||◌, List, [], ◌∷◌, ltb, ◌==◌}
use wait.Common.{if◌then◌else◌, Option, none, some, get_elem?, map, Result, ok, panic, or_trap}
use wait.Common
use wait.Asm
use wait.Emit.{State, M, ◌>>=◌, ◌>>◌, pure, stop, emit_flush_to_flash}
use wait.Wkreprog
use wait.Ops.{Emitter, emit_2_call, emit_2_jmp}
use wait.Instructions.{lift, get_state}
use wait.Parse.{WasmFunction}
use wait.Compile.{Compiler, compile_open, compile_close, set_start_of_next_method, emitting}

-- `pgm_read_word_far`.
abbrev pub word_at : (ℕ → ℕ) → ℕ → ℕ
word_at rom a = rom a + rom (a + 1) * 2 ^ 8

-- The cases of the switch: every function of the firmware that the handlers call. `embed_func_count`
-- is 0xfff4 and `embed_func_i64store`, 0xfff7, is not among them.
unfoldable pub is_embed_func : ℕ → Bool
is_embed_func id =
    (id == 0xffff || id == 0xfffe || id == 0xfffd || id == 0xfffc || id == 0xfffb)
    || (id == 0xfffa
        || id == 0xfff9
        || id == 0xfff8
        || id == 0xfff6
        || id == 0xfff5
        || id == 0xfff4)

-- Enough for each pc.
abbrev pub refill_fuel : ℕ
refill_fuel = 2 ^ 16 + 1

module _ (code_space : ℕ) (embed_address : ℕ → ℕ) (function_list : List WasmFunction) where
  -- A number behind the end of the list of functions is undefined.
  unfoldable pub call_address : ℕ → Result ℕ
  call_address id =
      if is_embed_func id
      then ok (embed_address id)
      else Common.◌>>=◌ (or_trap (get_elem? function_list id)) (λ f. ok f.compiled)

  abbrev pub read_word : ℕ → M ℕ
  read_word a s = ok (word_at s.writer.rom a, s)

  unfoldable pub refill_jmp : ℕ → Emitter
  refill_jmp pc = do
    label_id ← read_word (code_space + pc + 2)
    s ← get_state
    target ← lift (or_trap (get_elem? s.block_pc label_id))
    emit_2_jmp (code_space + target)
    emit_flush_to_flash

  unfoldable pub refill_call : ℕ → Emitter
  unfolding call_address
  refill_call pc = do
    func_id ← read_word (code_space + pc + 2)
    address ← lift (call_address func_id)
    emit_2_call address
    emit_flush_to_flash

  -- `wkreprog_skip(2)`.
  unfoldable pub refill_skip : Emitter
  refill_skip s =
      Common.◌>>=◌ (Wkreprog.write true 2 [] s.writer) (λ w. ok (tt, record s { writer = w }))

  -- One instruction; the pc is a u16.
  unfoldable pub refill_round : ℕ → M ℕ
  refill_round pc = do
    opcode ← read_word (code_space + pc)
    if opcode == Asm.opcode_jmp
        then (do refill_jmp pc; pure ((pc + 4) % 2 ^ 16))
        else (if opcode == Asm.opcode_call
            then (do refill_call pc; pure ((pc + 4) % 2 ^ 16))
            else (do refill_skip; pure ((pc + 2) % 2 ^ 16)))

  -- `while (pc < prev_pc)`. A pc has 2 ^ 16 values: a loop that has not ended by then does not end.
  pub refill_loop : ℕ → ℕ → ℕ → Emitter
  refill_loop zero prev_pc pc = stop
  refill_loop (suc fuel) prev_pc pc =
      let rest : Emitter = refill_round pc >>= refill_loop fuel prev_pc in
      if ltb pc prev_pc then rest else pure tt

  unfoldable pub branch_pc_refill : Compiler → Result Compiler
  branch_pc_refill c =
      let opened = compile_open (set_start_of_next_method code_space c) in
      Common.◌>>=◌ (emitting (refill_loop refill_fuel c.state.pc 0) opened) (λ r. compile_close r.1)
