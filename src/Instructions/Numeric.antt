-- ===== src/Instructions/Numeric.antt =====
-- The handlers of src/instructions.c for constants, comparisons and arithmetic.
pub mod Sums
pub mod Compare
pub mod Constants
pub mod Bytes
pub mod ShiftLoop
pub mod Shifts
pub mod Runtime
use wait.Common.{ℕ, ◌+◌, ◌-◌, ◌*◌, ◌%◌, ◌^◌, if◌then◌else◌}
use wait.Asm
use wait.Asm.{forward, backward}
use wait.Emit.{State, M, ◌>>=◌, ◌>>◌, skip}
use wait.Ops.{Emitter, emit_ldi, emit_branch, emit_src_dest, emit_single_reg, emit_rjmp}
use wait.Ops.{emit_2_call, emit_x_pop_32bit, emit_x_push_32bit}
use wait.Instructions.{grow, shrink, read_operand_i32, read_operand_i64, num8}

abbrev pub embed_func_idiv : ℕ
embed_func_idiv = 0xffff

abbrev pub embed_func_udiv : ℕ
embed_func_udiv = 0xfffe

abbrev pub embed_func_clz32 : ℕ
embed_func_clz32 = 0xfffd

abbrev pub embed_func_umul : ℕ
embed_func_umul = 0xfff6

-- One instruction on each byte of two numbers, the first with an opcode of its own.
abbrev bytewise : ℕ → ℕ → ℕ → ℕ → Emitter
bytewise first next dest src = do
  emit_src_dest first dest src
  emit_src_dest next (dest + 1) (src + 1)
  emit_src_dest next (dest + 2) (src + 2)
  emit_src_dest next (dest + 3) (src + 3)

abbrev load_number : ℕ → ℕ → ℕ → ℕ → Emitter
load_number k₀ k₁ k₂ k₃ = do emit_ldi 22 k₀; emit_ldi 23 k₁; emit_ldi 24 k₂; emit_ldi 25 k₃

unfoldable pub i32_const : ℕ → Emitter
i32_const end = do
  operand ← read_operand_i32 end
  load_number (num8 0 operand) (num8 1 operand) (num8 2 operand) (num8 3 operand)
  emit_x_push_32bit 22
  grow 1

-- An i64 takes two places of the stack.
unfoldable pub i64_const : ℕ → Emitter
i64_const end = do
  operand ← read_operand_i64 end
  emit_ldi 18 (num8 0 operand)
  emit_ldi 19 (num8 1 operand)
  emit_ldi 20 (num8 2 operand)
  emit_ldi 21 (num8 3 operand)
  load_number (num8 4 operand) (num8 5 operand) (num8 6 operand) (num8 7 operand)
  emit_x_push_32bit 22
  emit_x_push_32bit 18
  grow 2

unfoldable pub i32_eqz : Emitter
i32_eqz = do
  emit_x_pop_32bit 18
  load_number 1 0 0 0
  emit_src_dest Asm.opcode_or 18 19
  emit_src_dest Asm.opcode_or 18 20
  emit_src_dest Asm.opcode_or 18 21
  emit_branch Asm.opcode_breq (forward 2)
  emit_ldi 22 0
  emit_x_push_32bit 22

-- The ten comparisons.
pub data Comparison : Type 0 where
  eq ne lt_s lt_u gt_s gt_u le_s le_u ge_s ge_u : Comparison

-- `le` and `gt` compare the operands the other way round.
unfoldable pub compare_registers : Comparison → Emitter
compare_registers le_s = bytewise Asm.opcode_cp Asm.opcode_cpc 22 18
compare_registers le_u = bytewise Asm.opcode_cp Asm.opcode_cpc 22 18
compare_registers gt_s = bytewise Asm.opcode_cp Asm.opcode_cpc 22 18
compare_registers gt_u = bytewise Asm.opcode_cp Asm.opcode_cpc 22 18
compare_registers _ = bytewise Asm.opcode_cp Asm.opcode_cpc 18 22

unfoldable pub comparison_branch : Comparison → ℕ
comparison_branch lt_s = Asm.opcode_brlt
comparison_branch gt_s = Asm.opcode_brlt
comparison_branch lt_u = Asm.opcode_brcs
comparison_branch gt_u = Asm.opcode_brcs
comparison_branch le_s = Asm.opcode_brge
comparison_branch ge_s = Asm.opcode_brge
comparison_branch le_u = Asm.opcode_brcc
comparison_branch ge_u = Asm.opcode_brcc
comparison_branch eq = Asm.opcode_breq
comparison_branch ne = Asm.opcode_brne

unfoldable pub i32_compare : Comparison → Emitter
i32_compare op = do
  emit_x_pop_32bit 22
  emit_x_pop_32bit 18
  compare_registers op
  load_number 1 0 0 0
  emit_branch (comparison_branch op) (forward 2)
  emit_ldi 22 0
  emit_x_push_32bit 22
  shrink 1

unfoldable pub i32_clz : Emitter
i32_clz = do emit_x_pop_32bit 22; emit_2_call embed_func_clz32; emit_x_push_32bit 22

unfoldable pub i32_add : Emitter
i32_add = do
  emit_x_pop_32bit 22
  emit_x_pop_32bit 18
  bytewise Asm.opcode_add Asm.opcode_adc 22 18
  emit_x_push_32bit 22
  shrink 1

unfoldable pub i32_sub : Emitter
i32_sub = do
  emit_x_pop_32bit 18
  emit_x_pop_32bit 22
  bytewise Asm.opcode_sub Asm.opcode_sbc 22 18
  emit_x_push_32bit 22
  shrink 1

-- Multiplication and division call a function of the runtime.
unfoldable pub i32_mul : Emitter
i32_mul = do
  emit_x_pop_32bit 18
  emit_x_pop_32bit 22
  emit_2_call embed_func_umul
  emit_x_push_32bit 22
  shrink 1

pub data Division : Type 0 where
  div_s div_u : Division

unfoldable pub division_callee : Division → ℕ
division_callee div_s = embed_func_idiv
division_callee div_u = embed_func_udiv

unfoldable pub i32_div : Division → Emitter
i32_div op = do
  emit_x_pop_32bit 18
  emit_x_pop_32bit 22
  emit_2_call (division_callee op)
  emit_x_push_32bit 22
  shrink 1

pub data Logic : Type 0 where
  and_ or_ xor_ : Logic

unfoldable pub logic_opcode : Logic → ℕ
logic_opcode and_ = Asm.opcode_and
logic_opcode or_ = Asm.opcode_or
logic_opcode xor_ = Asm.opcode_eor

unfoldable pub i32_logic : Logic → Emitter
i32_logic op = do
  emit_x_pop_32bit 22
  emit_x_pop_32bit 18
  bytewise (logic_opcode op) (logic_opcode op) 22 18
  emit_x_push_32bit 22
  shrink 1

pub data Shift : Type 0 where
  shl shr_s shr_u : Shift

-- LSL and ROL are ADD and ADC of a register to itself.
unfoldable pub shift_once : Shift → Emitter
shift_once shl = bytewise Asm.opcode_add Asm.opcode_adc 22 22
shift_once shr_u = do
  emit_single_reg Asm.opcode_lsr 25
  emit_single_reg Asm.opcode_ror 24
  emit_single_reg Asm.opcode_ror 23
  emit_single_reg Asm.opcode_ror 22
shift_once shr_s = do
  emit_single_reg Asm.opcode_asr 25
  emit_single_reg Asm.opcode_ror 24
  emit_single_reg Asm.opcode_ror 23
  emit_single_reg Asm.opcode_ror 22

-- The count falls to -1, one shift for each step before.
unfoldable pub i32_shift : Shift → Emitter
i32_shift op = do
  emit_x_pop_32bit 18
  emit_x_pop_32bit 22
  emit_rjmp (forward 8)
  shift_once op
  emit_single_reg Asm.opcode_dec 18
  emit_branch Asm.opcode_brpl (backward 12)
  emit_x_push_32bit 22
  shrink 1
