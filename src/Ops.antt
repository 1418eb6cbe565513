-- ===== src/Ops.antt =====
-- src/asm.c: the functions that emit one instruction or a fixed sequence of them.
pub mod Words
pub mod Progress
use wait.Common.{ℕ, zero, suc, ◌+◌, ◌-◌, ◌/◌, bit_and, ltb, if◌then◌else◌}
use wait.Common
use wait.Asm
use wait.Asm.{Offset, forward, backward}
use wait.Emit.{State, M, ◌>>=◌, ◌>>◌, skip, emit, emit2, emit_flush_to_flash}

abbrev pub Emitter : Type 0
Emitter = M (Unit {0})

-- X, Y and Z, the register pairs that serve as pointers, and the marks of Y and Z in LDD and STD.
abbrev pub rx : ℕ
rx = 26

abbrev pub ry : ℕ
ry = 28

abbrev pub rz : ℕ
rz = 30

abbrev pub y_pointer : ℕ
y_pointer = 1

abbrev pub z_pointer : ℕ
z_pointer = 0

abbrev pub emit_single_reg : ℕ → ℕ → Emitter
emit_single_reg opcode reg = emit (Asm.asm_single_reg opcode reg)

abbrev pub emit_src_dest : ℕ → ℕ → ℕ → Emitter
emit_src_dest opcode dest src = emit (Asm.asm_src_dest opcode dest src)

abbrev pub emit_immediate : ℕ → ℕ → ℕ → Emitter
emit_immediate opcode reg constant = emit (Asm.asm_immediate opcode reg constant)

abbrev pub emit_branch : ℕ → Offset → Emitter
emit_branch opcode offset = emit (Asm.asm_branch opcode offset)

abbrev pub emit_push : ℕ → Emitter
emit_push = emit_single_reg Asm.opcode_push

abbrev pub emit_pop : ℕ → Emitter
emit_pop = emit_single_reg Asm.opcode_pop

abbrev pub emit_ldi : ℕ → ℕ → Emitter
emit_ldi = emit_immediate Asm.opcode_ldi

abbrev pub emit_movw : ℕ → ℕ → Emitter
emit_movw dest src = emit (Asm.asm_movw dest src)

abbrev pub emit_ldd : ℕ → ℕ → ℕ → Emitter
emit_ldd reg yz offset = emit (Asm.asm_ldd reg yz offset)

abbrev pub emit_std : ℕ → ℕ → ℕ → Emitter
emit_std reg yz offset = emit (Asm.asm_std reg yz offset)

abbrev pub emit_adiw : ℕ → ℕ → Emitter
emit_adiw reg constant = emit (Asm.asm_word_immediate Asm.opcode_adiw reg constant)

abbrev pub emit_sbiw : ℕ → ℕ → Emitter
emit_sbiw reg constant = emit (Asm.asm_word_immediate Asm.opcode_sbiw reg constant)

abbrev pub emit_in : ℕ → ℕ → Emitter
emit_in dest port = emit (Asm.asm_in dest port)

abbrev pub emit_out : ℕ → ℕ → Emitter
emit_out port src = emit (Asm.asm_out port src)

abbrev pub emit_rjmp : Offset → Emitter
emit_rjmp offset = emit (Asm.asm_rjmp offset)

abbrev pub emit_ret : Emitter
emit_ret = emit Asm.opcode_ret

abbrev pub emit_2_call : ℕ → Emitter
emit_2_call address = emit2 Asm.opcode_call address

-- The macro halves the address, a u16 that the caller doubles.
abbrev pub emit_2_jmp : ℕ → Emitter
emit_2_jmp address = emit2 Asm.opcode_jmp (address / 2)

unfoldable pub emit_x_push_32bit : ℕ → Emitter
emit_x_push_32bit base = do
  emit_push (base + 3)
  emit_push (base + 2)
  emit_push (base + 1)
  emit_push (base + 0)

unfoldable pub emit_x_push_16bit : ℕ → Emitter
emit_x_push_16bit base = do emit_push (base + 1); emit_push (base + 0)

unfoldable pub emit_x_pop_32bit : ℕ → Emitter
emit_x_pop_32bit base = do
  emit_pop (base + 0)
  emit_pop (base + 1)
  emit_pop (base + 2)
  emit_pop (base + 3)

unfoldable pub emit_x_pop_16bit : ℕ → Emitter
emit_x_pop_16bit base = do emit_pop (base + 0); emit_pop (base + 1)

unfoldable pub emit_x_call : ℕ → Emitter
emit_x_call target = do
  emit_push (rx + 1)
  emit_push rx
  emit_flush_to_flash
  emit_2_call target
  emit_pop rx
  emit_pop (rx + 1)

-- `for (i = first; i < first + n; i++) emit_PUSH(R0 + i)`
unfoldable pub push_up : ℕ → ℕ → Emitter
push_up zero i = skip
push_up (suc n) i = do emit_push i; push_up n (i + 1)

-- `for (i = last; i > last - n; i--) emit_POP(R0 + i)`
unfoldable pub pop_down : ℕ → ℕ → Emitter
pop_down zero i = skip
pop_down (suc n) i = do emit_pop i; pop_down n (i - 1)

unfoldable pub emit_x_call_save : Emitter
emit_x_call_save = push_up 16 2

unfoldable pub emit_x_call_restore : Emitter
emit_x_call_restore = pop_down 16 17

unfoldable pub emit_local_init : ℕ → Emitter
emit_local_init num_local_bytes = do
  emit_push 28
  emit_push 29
  emit_in 28 0x3d
  emit_in 29 0x3e
  if ltb num_local_bytes 60 then emit_sbiw 28 num_local_bytes else do
    emit_ldi rz (bit_and num_local_bytes 0x00ff)
    emit_ldi (rz + 1) (bit_and num_local_bytes 0xff00)
    emit_src_dest Asm.opcode_sub ry rz
    emit_src_dest Asm.opcode_sbc (ry + 1) (rz + 1)
  emit_out 0x3e 29
  emit_out 0x3d 28

unfoldable pub emit_local_deinit : ℕ → Emitter
emit_local_deinit num_local_bytes = do
  if ltb num_local_bytes 60 then emit_adiw 28 num_local_bytes else do
    emit_ldi rz (bit_and num_local_bytes 0x00ff)
    emit_ldi (rz + 1) (bit_and num_local_bytes 0xff00)
    emit_src_dest Asm.opcode_add ry rz
    emit_src_dest Asm.opcode_adc (ry + 1) (rz + 1)
  emit_out 0x3e 29
  emit_out 0x3d 28
  emit_pop 29
  emit_pop 28
