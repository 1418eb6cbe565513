-- ===== src/Instructions/Control.antt =====
-- The handlers of src/instructions.c for blocks, branches and returns.
pub mod Unwind
use wait.Common.{ℕ, ◌+◌, ◌-◌, ◌*◌, ◌%◌, ◌^◌, Bool, true, false, ◌==◌, ltb, not, if◌then◌else◌}
use wait.Asm
use wait.Asm.{forward, backward}
use wait.Emit.{State, M, ◌>>=◌, ◌>>◌, pure, skip, stop, emit}
use wait.Ops.{
  Emitter, emit_x_pop_32bit, emit_x_push_32bit, emit_in, emit_out, emit_adiw, emit_branch,
}
use wait.Ops.{emit_2_jmp, emit_2_call, emit_ret, emit_rjmp, emit_src_dest, emit_local_deinit}
use wait.Ops.{emit_x_call_restore}
use wait.Instructions.{FuncType, Func, Module, wasm_type_none, wasm_type_i32, at, put, lift}
use wait.Instructions.{get_state, set_state, repeat, grow, shrink, read_operand_u32}
use wait.Instructions.{read_block_type, num16, is_entry_func, has_frame}

-- embed_func_print_stack
abbrev pub embed_func_print_stack : ℕ
embed_func_print_stack = 0xfff5

unfoldable pub unreachable : Emitter
unreachable = do emit Asm.opcode_cli; emit_rjmp (backward 2)

unfoldable pub nop : Emitter
nop = emit_2_call embed_func_print_stack

-- A new label on the block stack, with the pc that a branch to it goes to, or 0 if that is not known.
unfoldable pub open_block : ℕ → (State → ℕ) → Emitter
open_block end target = do
  type ← read_block_type end
  s ← get_state
  labels ← lift (put s.block_label s.top s.next_id)
  stacks ← lift (put s.block_stack s.top (s.stack_top % 2 ^ 8))
  types ← lift (put s.block_type s.top type)
  pcs ← lift (put s.block_pc s.next_id (target s))
  set_state (record s {
    next_id = (s.next_id + 1) % 2 ^ 16;
    top = (s.top + 1) % 2 ^ 16;
    block_label = labels;
    block_stack = stacks;
    block_type = types;
    block_pc = pcs;
  })

unfoldable pub block : ℕ → Emitter
block end = open_block end (λ s. 0)

-- The target of a loop is its start.
unfoldable pub loop : ℕ → Emitter
loop end = open_block end (λ s. s.pc)

-- "pop the result, if any, restore Y and the saved registers, return"
unfoldable pub leave_function : Module → ℕ → Func → Emitter
leave_function module_ index func = do
  if func.func_type.return_type == wasm_type_i32 then (do emit_x_pop_32bit 22; shrink 1) else skip
  if has_frame func then emit_local_deinit func.num_local_bytes else skip
  if is_entry_func module_ index then emit_x_call_restore else skip
  emit_ret

-- `int count`: a difference of u16 numbers as a 16-bit int. Only a positive one makes rounds.
abbrev pub height : ℕ → ℕ → ℕ
height stack_top base = (stack_top + 2 ^ 16 - base) % 2 ^ 16

abbrev pub rounds : ℕ → ℕ
rounds count = if ltb count (2 ^ 15) then count else 0

-- The values of the block that is ending, the topmost to R22.
unfoldable pub pop_block : ℕ → Emitter
pop_block count =
    if count == 0
    then skip
    else do emit_x_pop_32bit 22; shrink 1; repeat (count - 1) (do emit_x_pop_32bit 18; shrink 1)

unfoldable pub close_block : Emitter
close_block = do
  s ← get_state
  base ← lift (at s.block_stack (s.top - 1))
  set_state (record s { top = s.top - 1 })
  pop_block (rounds (height s.stack_top base))
  t ← get_state
  label ← lift (at t.block_label t.top)
  target ← lift (at t.block_pc label)
  pcs ← lift (put t.block_pc label (if target == 0 then t.pc else target))
  set_state (record t { block_pc = pcs })
  type ← lift (at t.block_type t.top)
  if type == wasm_type_none then skip else do emit_x_push_32bit 22; grow 1

-- `end`: of a block, or of the function.
unfoldable pub end_ : Module → ℕ → Func → Emitter
end_ module_ index func = do
  s ← get_state
  if s.top == 0 then leave_function module_ index func else close_block

-- The index of the block that is `depth` blocks out; a u16 that wraps.
abbrev pub block_index : ℕ → ℕ → ℕ
block_index top depth = (top + 2 ^ 17 - 1 - depth) % 2 ^ 16

-- "restore the stack balance before the jump"
unfoldable pub unwind : ℕ → Emitter
unwind n = do
  if n == 1 then emit_x_pop_32bit 22 else skip
  if n == 2
      then (do emit_x_pop_32bit 22; emit_x_pop_32bit 18)
      else (if ltb 2 n
          then (do
            emit_x_pop_32bit 22
            emit_in 26 0x3d
            emit_in 27 0x3e
            emit_adiw 26 ((n - 1) * 4 % 2 ^ 16)
            emit_out 0x3e 27
            emit_out 0x3d 26)
          else skip)

unfoldable pub br : ℕ → Emitter
br end = do
  operand ← read_operand_u32 end
  s ← get_state
  base ← lift (at s.block_stack (block_index s.top (num16 operand)))
  unwind (height s.stack_top base)
  label ← lift (at s.block_label (block_index s.top (num16 operand)))
  emit_2_jmp (label * 2 % 2 ^ 16)

-- How far `br_if` skips when the condition is zero; the difference is unsigned, so never below 0.
unfoldable pub skip_distance : ℕ → ℕ
skip_distance n =
    if n == 0 then 4 else (if n == 1 then 4 + 8 else (if n == 2 then 4 + 8 * 2 else 4 + 8 + 10))

unfoldable pub br_if : ℕ → Emitter
br_if end = do
  operand ← read_operand_u32 end
  emit_x_pop_32bit 22
  shrink 1
  emit_src_dest Asm.opcode_cp 22 1
  emit_src_dest Asm.opcode_cpc 23 1
  emit_src_dest Asm.opcode_cpc 24 1
  emit_src_dest Asm.opcode_cpc 25 1
  s ← get_state
  base ← lift (at s.block_stack (block_index s.top (num16 operand)))
  emit_branch Asm.opcode_breq (forward (skip_distance (height s.stack_top base)))
  unwind (height s.stack_top base)
  label ← lift (at s.block_label (block_index s.top (num16 operand)))
  emit_2_jmp (label * 2 % 2 ^ 16)

unfoldable pub return : Module → ℕ → Func → Emitter
return = leave_function
