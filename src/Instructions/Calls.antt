-- ===== src/Instructions/Calls.antt =====
-- The handlers of src/instructions.c for `call`, `drop` and `select`.
pub mod Select
use wait.Common.{ℕ, ◌+◌, ◌-◌, ◌%◌, ◌^◌, List, [], ◌∷◌, length, ◌==◌, ltb, leb}
use wait.Common.{if◌then◌else◌}
use wait.Asm
use wait.Asm.{forward}
use wait.Emit.{◌>>=◌, ◌>>◌, pure, skip, stop}
use wait.Ops.{Emitter, emit_x_pop_32bit, emit_x_push_32bit, emit_2_call, emit_src_dest, emit_branch}
use wait.Instructions.{FuncType, Module, wasm_type_i32, at, lift, repeat, grow}
use wait.Instructions.{shrink, read_operand_u32, num16}

-- The lowest argument register: `base -= 4` for each i32, down from R26.
unfoldable pub argument_base : List ℕ → ℕ → ℕ
argument_base [] base = base
argument_base (t ∷ ts) base =
    argument_base ts (if t == wasm_type_i32 then (base + 2 ^ 16 - 4) % 2 ^ 16 else base)

-- Each i32 argument goes to its registers, the last one first.
unfoldable pub place_arguments : List ℕ → ℕ → Emitter
place_arguments [] base = skip
place_arguments (t ∷ ts) base = do
  if t == wasm_type_i32 then (do emit_x_pop_32bit (base % 2 ^ 8); shrink 1) else skip
  place_arguments ts (if t == wasm_type_i32 then (base + 4) % 2 ^ 16 else base)

unfoldable pub push_result : FuncType → Emitter
push_result type =
    if type.return_type == wasm_type_i32 then (do emit_x_push_32bit 22; grow 1) else skip

unfoldable pub call_import : FuncType → ℕ → Emitter
call_import type index = do
  place_arguments type.args_type_list (argument_base type.args_type_list 26)
  emit_2_call index
  push_result type

-- A WebAssembly function finds its arguments on the stack; the caller drops them.
unfoldable pub call_wasm : FuncType → ℕ → Emitter
call_wasm type index = do
  emit_2_call index
  repeat type.args_num (do emit_x_pop_32bit 18; shrink 1)
  push_result type

unfoldable pub call : Module → ℕ → Emitter
call module_ end = do
  operand ← read_operand_u32 end
  if leb (length module_.functions) (num16 operand) then stop else pure tt
  callee ← lift (at module_.functions (num16 operand))
  if ltb (num16 operand) module_.import_num
      then call_import callee.func_type (num16 operand)
      else call_wasm callee.func_type (num16 operand)

unfoldable pub drop : Emitter
drop = do emit_x_pop_32bit 22; shrink 1

unfoldable pub select : Emitter
select = do
  emit_x_pop_32bit 22
  emit_x_pop_32bit 18
  emit_src_dest Asm.opcode_or 22 23
  emit_src_dest Asm.opcode_or 22 24
  emit_src_dest Asm.opcode_or 22 25
  emit_branch Asm.opcode_brne (forward 16)
  emit_x_pop_32bit 22
  emit_x_push_32bit 18
  shrink 2
