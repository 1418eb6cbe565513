-- ===== src/Instructions/Loads.antt =====
-- The handlers of src/instructions.c for loads and stores, as built: memory bounds are checked, and
-- nothing is counted (include/safety_check.h).
pub mod Extend
use wait.Common.{ℕ, ◌+◌, ◌%◌, ◌^◌, leb, if◌then◌else◌}
use wait.Asm
use wait.Asm.{forward}
use wait.Emit.{◌>>=◌, ◌>>◌, skip}
use wait.Ops.{Emitter, rz, z_pointer, emit_ldi, emit_std, emit_movw, emit_immediate, emit_branch}
use wait.Ops.{emit_src_dest, emit_rjmp, emit_2_call, emit_x_pop_32bit, emit_x_pop_16bit}
use wait.Ops.{emit_x_push_32bit}
use wait.Instructions.{get_state, grow, shrink, read_operand_u32, num8, num16}

-- The identifiers of include/asm.h that stand for functions of the runtime until they are refilled.
abbrev pub embed_func_i32load : ℕ
embed_func_i32load = 0xfffc

abbrev pub embed_func_i64load : ℕ
embed_func_i64load = 0xfffb

abbrev pub embed_func_i32store : ℕ
embed_func_i32store = 0xfffa

abbrev pub embed_func_i32store16 : ℕ
embed_func_i32store16 = 0xfff9

abbrev pub embed_func_i32store8 : ℕ
embed_func_i32store8 = 0xfff8

abbrev emit_eor_self : ℕ → Emitter
emit_eor_self reg = emit_src_dest Asm.opcode_eor reg reg

-- How many bytes an i32 load keeps, and whether it extends their sign.
pub data Width : Type 0 where
  full byte_unsigned byte_signed half_unsigned half_signed : Width

unfoldable pub extend_byte_signed : Emitter
extend_byte_signed = do
  emit_immediate Asm.opcode_subi 22 0
  emit_branch Asm.opcode_brmi (forward 8)
  emit_ldi 23 0x00
  emit_ldi 24 0x00
  emit_ldi 25 0x00
  emit_rjmp (forward 6)
  emit_ldi 23 0xff
  emit_ldi 24 0xff
  emit_ldi 25 0xff

unfoldable pub extend_half_signed : Emitter
extend_half_signed = do
  emit_src_dest Asm.opcode_cp 22 1
  emit_src_dest Asm.opcode_cpc 23 1
  emit_branch Asm.opcode_brmi (forward 6)
  emit_ldi 24 0x00
  emit_ldi 25 0x00
  emit_rjmp (forward 4)
  emit_ldi 24 0xff
  emit_ldi 25 0xff

unfoldable pub extend : Width → Emitter
extend full = skip
extend byte_unsigned = do emit_eor_self 23; emit_eor_self 24; emit_eor_self 25
extend half_unsigned = do emit_eor_self 24; emit_eor_self 25
extend byte_signed = extend_byte_signed
extend half_signed = extend_half_signed

unfoldable pub i32_load : Width → ℕ → Emitter
i32_load width end = do
  alignment ← read_operand_u32 end
  operand ← read_operand_u32 end
  emit_ldi 24 (num8 0 operand)
  emit_ldi 25 (num8 1 operand)
  emit_x_pop_32bit 20
  emit_2_call embed_func_i32load
  extend width
  emit_x_push_32bit 22

unfoldable pub i64_load : ℕ → Emitter
i64_load end = do
  alignment ← read_operand_u32 end
  operand ← read_operand_u32 end
  emit_ldi 24 (num8 0 operand)
  emit_ldi 25 (num8 1 operand)
  emit_x_pop_32bit 20
  emit_2_call embed_func_i64load
  emit_x_push_32bit 18
  emit_x_push_32bit 22
  grow 1

-- The callee is one of the three store functions.
unfoldable pub i32_store : ℕ → ℕ → Emitter
i32_store callee end = do
  alignment ← read_operand_u32 end
  operand ← read_operand_u32 end
  emit_ldi 20 (num8 0 operand)
  emit_ldi 21 (num8 1 operand)
  emit_x_pop_32bit 22
  emit_x_pop_16bit 18
  emit_x_pop_16bit 30
  emit_2_call callee
  shrink 2

-- The eight registers of an i64, from R18 on, to Z + base.
unfoldable pub store_eight : ℕ → Emitter
store_eight base = do
  emit_std 18 z_pointer base
  emit_std 19 z_pointer (base + 1)
  emit_std 20 z_pointer (base + 2)
  emit_std 21 z_pointer (base + 3)
  emit_std 22 z_pointer (base + 4)
  emit_std 23 z_pointer (base + 5)
  emit_std 24 z_pointer (base + 6)
  emit_std 25 z_pointer (base + 7)

-- Not checked against the bounds of the memory. The test reads the low byte of the offset only.
unfoldable pub i64_store : ℕ → Emitter
i64_store end = do
  alignment ← read_operand_u32 end
  operand ← read_operand_u32 end
  s ← get_state
  let offset = (num16 operand + s.wasm_globals_size) % 2 ^ 16
  emit_x_pop_32bit 18
  emit_x_pop_32bit 22
  emit_x_pop_32bit 14
  emit_movw rz 2
  emit_src_dest Asm.opcode_add rz 14
  emit_src_dest Asm.opcode_adc (rz + 1) 15
  if leb 30 (num8 0 offset)
      then (do
        emit_ldi 16 (num8 0 offset)
        emit_ldi 17 (num8 1 offset)
        emit_src_dest Asm.opcode_add rz 16
        emit_src_dest Asm.opcode_adc (rz + 1) 17
        store_eight 0)
      else store_eight (num8 0 offset)
  shrink 3
