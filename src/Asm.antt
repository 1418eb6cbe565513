-- ===== src/Asm.antt =====
-- src/asm.c and include/asm.h: the words of the AVR instructions that the compiler emits.
-- A word is a u16. Operands are u8 or u16 numbers; a negative offset is a `backward` one.
use wait.Common.{ℕ, ◌+◌, ◌-◌, ◌*◌, ◌/◌, ◌%◌, ◌^◌, bit_and}

-- 0000 00kk kkkk k000
abbrev pub make_branch_offset : ℕ → ℕ
make_branch_offset offset = bit_and offset 0x7f * 2 ^ 3

-- 0000 00r0 0000 rrrr
abbrev pub make_source_register : ℕ → ℕ
make_source_register src = bit_and src 0x0f + bit_and src 0x10 * 2 ^ 5

-- 0000 0AA0 0000 AAAA
abbrev pub make_in_out_port : ℕ → ℕ
make_in_out_port address = bit_and address 0x0f + bit_and address 0x30 * 2 ^ 5

-- 00q0 qq00 0000 0qqq
abbrev pub make_ldd_std_offset : ℕ → ℕ
make_ldd_std_offset offset =
    bit_and offset 0x07 + bit_and offset 0x18 * 2 ^ 7 + bit_and offset 0x20 * 2 ^ 8

-- The 0000 000d dddd 0000 field.
unfoldable pub asm_single_reg : ℕ → ℕ → ℕ
asm_single_reg opcode reg = (opcode + reg % 2 ^ 8 * 2 ^ 4) % 2 ^ 16

-- The 0000 00rd dddd rrrr fields.
unfoldable pub asm_src_dest : ℕ → ℕ → ℕ → ℕ
asm_src_dest opcode dest src = (opcode + dest * 2 ^ 4 + make_source_register src) % 2 ^ 16

unfoldable pub asm_movw : ℕ → ℕ → ℕ
unfolding asm_src_dest
asm_movw dest src = asm_src_dest 0x0100 (dest / 2) (src / 2)

-- The constant is a `uint8_t`: what does not fit is cut off at the call.
unfoldable pub asm_immediate : ℕ → ℕ → ℕ → ℕ
asm_immediate opcode reg constant =
    let k = constant % 2 ^ 8 in
    (opcode + (reg * 2 ^ 4 + 2 ^ 16 - 16 * 2 ^ 4) + (bit_and k 0x0f + bit_and k 0xf0 * 2 ^ 4))
    % 2 ^ 16

unfoldable pub asm_word_immediate : ℕ → ℕ → ℕ → ℕ
asm_word_immediate opcode reg constant =
    let k = constant % 2 ^ 8 in
    (opcode + (reg - 24) / 2 * 2 ^ 4 + bit_and k 0x0f + bit_and k 0x30 * 2 ^ 2) % 2 ^ 16

unfoldable pub asm_ldd : ℕ → ℕ → ℕ → ℕ
asm_ldd reg yz offset = (0x8000 + reg * 2 ^ 4 + yz * 2 ^ 3 + make_ldd_std_offset offset) % 2 ^ 16

unfoldable pub asm_std : ℕ → ℕ → ℕ → ℕ
asm_std reg yz offset = (0x8200 + reg * 2 ^ 4 + yz * 2 ^ 3 + make_ldd_std_offset offset) % 2 ^ 16

unfoldable pub asm_in : ℕ → ℕ → ℕ
asm_in dest port = (0xb000 + dest * 2 ^ 4 + make_in_out_port port) % 2 ^ 16

unfoldable pub asm_out : ℕ → ℕ → ℕ
asm_out port src = (0xb800 + src * 2 ^ 4 + make_in_out_port port) % 2 ^ 16

-- A byte offset of a jump, forward or backward.
pub data Offset : Type 0 where
  forward backward : ℕ → Offset

-- `(uint8_t)offset`, then halved: the offset in words.
unfoldable pub asm_branch : ℕ → Offset → ℕ
asm_branch opcode (forward n) = (opcode + make_branch_offset (n % 2 ^ 8 / 2)) % 2 ^ 16
asm_branch opcode (backward n) =
    (opcode + make_branch_offset ((2 ^ 8 - n % 2 ^ 8) % 2 ^ 8 / 2)) % 2 ^ 16

-- `(offset / 2) & 0xFFF` on an int.
unfoldable pub asm_rjmp : Offset → ℕ
asm_rjmp (forward n) = 0xc000 + bit_and (n / 2) 0xfff
asm_rjmp (backward n) = 0xc000 + bit_and (2 ^ 16 - n / 2) 0xfff

-- Opcodes.
abbrev pub opcode_adc : ℕ
opcode_adc = 0x1c00

abbrev pub opcode_add : ℕ
opcode_add = 0x0c00

abbrev pub opcode_adiw : ℕ
opcode_adiw = 0x9600

abbrev pub opcode_and : ℕ
opcode_and = 0x2000

abbrev pub opcode_asr : ℕ
opcode_asr = 0x9405

abbrev pub opcode_breq : ℕ
opcode_breq = 0xf001

abbrev pub opcode_brge : ℕ
opcode_brge = 0xf404

abbrev pub opcode_brlt : ℕ
opcode_brlt = 0xf004

abbrev pub opcode_brne : ℕ
opcode_brne = 0xf401

abbrev pub opcode_brpl : ℕ
opcode_brpl = 0xf402

abbrev pub opcode_brcs : ℕ
opcode_brcs = 0xf000

abbrev pub opcode_brcc : ℕ
opcode_brcc = 0xf400

abbrev pub opcode_brmi : ℕ
opcode_brmi = 0xf002

abbrev pub opcode_call : ℕ
opcode_call = 0x940e

abbrev pub opcode_cp : ℕ
opcode_cp = 0x1400

abbrev pub opcode_cpc : ℕ
opcode_cpc = 0x0400

abbrev pub opcode_dec : ℕ
opcode_dec = 0x940a

abbrev pub opcode_eor : ℕ
opcode_eor = 0x2400

abbrev pub opcode_jmp : ℕ
opcode_jmp = 0x940c

abbrev pub opcode_ldi : ℕ
opcode_ldi = 0xe000

abbrev pub opcode_lsr : ℕ
opcode_lsr = 0x9406

abbrev pub opcode_or : ℕ
opcode_or = 0x2800

abbrev pub opcode_push : ℕ
opcode_push = 0x920f

abbrev pub opcode_pop : ℕ
opcode_pop = 0x900f

abbrev pub opcode_ret : ℕ
opcode_ret = 0x9508

abbrev pub opcode_ror : ℕ
opcode_ror = 0x9407

abbrev pub opcode_sbc : ℕ
opcode_sbc = 0x0800

abbrev pub opcode_sbiw : ℕ
opcode_sbiw = 0x9700

abbrev pub opcode_sub : ℕ
opcode_sub = 0x1800

abbrev pub opcode_subi : ℕ
opcode_subi = 0x5000

abbrev pub opcode_cli : ℕ
opcode_cli = 0x94f8
