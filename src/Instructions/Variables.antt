-- ===== src/Instructions/Variables.antt =====
-- The handlers of src/instructions.c for local and global variables.
use wait.Common.{ℕ, ◌+◌, ◌-◌, ◌*◌, ◌%◌, ◌^◌, bit_and, ltb, leb, if◌then◌else◌}
use wait.Asm
use wait.Emit.{◌>>=◌, ◌>>◌}
use wait.Ops.{Emitter, rz, ry, z_pointer, y_pointer, emit_ldd, emit_std, emit_ldi, emit_src_dest}
use wait.Ops.{emit_movw, emit_x_pop_32bit, emit_x_push_32bit}
use wait.Instructions.{Func, Module, at, lift, grow, shrink, read_operand_u32, num16}

-- The offset from Y of a local variable, or of a parameter of the current function; a u16.
unfoldable pub local_offset : Func → ℕ → ℕ
local_offset func index =
    if leb func.func_type.args_num index
    then (index - func.func_type.args_num) * 4 % 2 ^ 16
    else (func.num_local_bytes + 4 + (func.func_type.args_num - 1 - index) * 4) % 2 ^ 16

abbrev load_four : ℕ → ℕ → Emitter
load_four yz offset = do
  emit_ldd 22 yz offset
  emit_ldd 23 yz (offset + 1)
  emit_ldd 24 yz (offset + 2)
  emit_ldd 25 yz (offset + 3)

abbrev store_four : ℕ → ℕ → Emitter
store_four yz offset = do
  emit_std 22 yz offset
  emit_std 23 yz (offset + 1)
  emit_std 24 yz (offset + 2)
  emit_std 25 yz (offset + 3)

-- Y moves to the variable and back where its offset is too far for one instruction.
abbrev move_to_variable : ℕ → Emitter
move_to_variable base = do
  emit_ldi rz (bit_and base 0xff)
  emit_ldi (rz + 1) (bit_and base 0xff00)
  emit_src_dest Asm.opcode_add ry rz
  emit_src_dest Asm.opcode_adc (ry + 1) (rz + 1)

abbrev move_back : Emitter
move_back = do emit_src_dest Asm.opcode_sub ry rz; emit_src_dest Asm.opcode_sbc (ry + 1) (rz + 1)

unfoldable pub load_local : ℕ → Emitter
load_local base =
    if ltb base 60
    then load_four y_pointer (base + 1)
    else do move_to_variable base; load_four y_pointer 1; move_back

unfoldable pub store_local : ℕ → Emitter
store_local base =
    if ltb base 60
    then store_four y_pointer (base + 1)
    else do move_to_variable base; store_four y_pointer 1; move_back

unfoldable pub local_get : Func → ℕ → Emitter
local_get current_func end = do
  operand ← read_operand_u32 end
  load_local (local_offset current_func (num16 operand))
  emit_x_push_32bit 22
  grow 1

unfoldable pub local_set : Func → ℕ → Emitter
local_set current_func end = do
  operand ← read_operand_u32 end
  emit_x_pop_32bit 22
  store_local (local_offset current_func (num16 operand))
  shrink 1

unfoldable pub local_tee : Func → ℕ → Emitter
local_tee current_func end = do
  operand ← read_operand_u32 end
  emit_x_pop_32bit 22
  store_local (local_offset current_func (num16 operand))
  emit_x_push_32bit 22

-- Z moves to the variable through R22 and R23.
abbrev point_to_global : ℕ → Emitter
point_to_global offset = do
  emit_ldi 22 (bit_and offset 0x00ff)
  emit_ldi 23 (bit_and offset 0xff00)
  emit_src_dest Asm.opcode_add rz 22
  emit_src_dest Asm.opcode_adc (rz + 1) 23

unfoldable pub load_global : ℕ → Emitter
load_global offset = do
  emit_movw rz 2
  if ltb offset 60
      then load_four z_pointer offset
      else do point_to_global offset; load_four z_pointer 0

unfoldable pub store_global : ℕ → Emitter
store_global offset = do
  emit_movw rz 2
  if ltb offset 60
      then store_four z_pointer offset
      else do point_to_global offset; store_four z_pointer 0

unfoldable pub global_get : Module → ℕ → Emitter
global_get module_ end = do
  operand ← read_operand_u32 end
  offset ← lift (at module_.global_offsets (num16 operand))
  load_global offset
  emit_x_push_32bit 22
  grow 1

unfoldable pub global_set : Module → ℕ → Emitter
global_set module_ end = do
  operand ← read_operand_u32 end
  emit_x_pop_32bit 22
  offset ← lift (at module_.global_offsets (num16 operand))
  store_global offset
  shrink 1
