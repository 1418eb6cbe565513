-- ===== src/Avr.antt =====
-- The processor that the emitted words are for: what a word of code means, written down from the
-- AVR instruction set, independently of the encoders of src/asm.c.
pub mod Decode
pub mod Cpu
pub mod Kept
pub mod Long
pub mod Flags
use wait.Common.{ℕ, ◌+◌, ◌*◌, ◌/◌, ◌%◌, List, [], ◌∷◌, ◌==◌, if◌then◌else◌, Bool, true, false}

-- The flags that a conditional branch can test, by their bit in the status register.
pub data Instr : Type 0 where
  add adc sub sbc and_ or_ eor cp cpc movw : ℕ → ℕ → Instr
  ldi subi adiw sbiw : ℕ → ℕ → Instr
  push pop lsr ror asr dec : ℕ → Instr
  brbs brbc : ℕ → ℕ → Instr
  rjmp : ℕ → Instr
  in_ out : ℕ → ℕ → Instr
  ldd std : ℕ → ℕ → ℕ → Instr
  call jmp : ℕ → Instr
  ret cli : Instr
  operand : Instr
  unknown : ℕ → Instr

abbrev pub field_d : ℕ → ℕ
field_d w = w / 16 % 32

abbrev pub field_r : ℕ → ℕ
field_r w = w % 16 + w / 512 % 2 * 16

abbrev field_k : ℕ → ℕ
field_k w = w % 16 + w / 256 % 16 * 16

abbrev pub field_q : ℕ → ℕ
field_q w = w % 8 + w / 1024 % 4 * 8 + w / 8192 % 2 * 32

abbrev field_a : ℕ → ℕ
field_a w = w % 16 + w / 512 % 4 * 16

-- Two registers, by the group w / 1024.
abbrev pub decode_registers : ℕ → ℕ → Instr
decode_registers group w =
    let d = field_d w in
    let r = field_r w in
    if group == 1
    then cpc d r
    else (if group == 2
        then sbc d r
        else (if group == 3
            then add d r
            else (if group == 5
                then cp d r
                else (if group == 6
                    then sub d r
                    else (if group == 7
                        then adc d r
                        else (if group == 8
                            then and_ d r
                            else (if group == 9
                                then eor d r
                                else (if group == 10
                                    then or_ d r
                                    else (if w / 256 == 1
                                        then movw (w / 16 % 16 * 2) (w % 16 * 2)
                                        else unknown w)))))))))

-- One register and a suffix, w / 512 from 0x48 on.
abbrev decode_suffix : ℕ → ℕ → ℕ → Instr
decode_suffix group suffix w =
    let d = field_d w in
    if group == 0x48
    then (if suffix == 15 then pop d else unknown w)
    else (if group == 0x49
        then (if suffix == 15 then push d else unknown w)
        else (if suffix == 5
            then asr d
            else (if suffix == 6
                then lsr d
                else (if suffix == 7 then ror d else (if suffix == 10 then dec d else unknown w)))))

-- The page 0x9000.
abbrev decode_nine : ℕ → Instr
decode_nine w =
    if w == 0x9508
    then ret
    else (if w == 0x94f8
        then cli
        else (if w / 256 == 0x96
            then adiw (24 + w / 16 % 4 * 2) (w % 16 + w / 64 % 4 * 16)
            else (if w / 256 == 0x97
                then sbiw (24 + w / 16 % 4 * 2) (w % 16 + w / 64 % 4 * 16)
                else decode_suffix (w / 512) (w % 16) w)))

abbrev decode_branch : ℕ → ℕ → Instr
decode_branch group w =
    if group == 0x3c
    then brbs (w % 8) (w / 8 % 128)
    else (if group == 0x3d then brbc (w % 8) (w / 8 % 128) else unknown w)

abbrev decode_io : ℕ → ℕ → Instr
decode_io group w = if group == 22 then in_ (field_d w) (field_a w) else out (field_a w) (field_d w)

abbrev pub decode_displacement : ℕ → ℕ → Instr
decode_displacement store w =
    if store == 0
    then ldd (field_d w) (w / 8 % 2) (field_q w)
    else std (field_d w) (w / 8 % 2) (field_q w)

-- A word that is an instruction of its own, by its first four bits.
abbrev decode_page : ℕ → ℕ → Instr
decode_page page w =
    if page == 14
    then ldi (16 + w / 16 % 16) (field_k w)
    else (if page == 5
        then subi (16 + w / 16 % 16) (field_k w)
        else (if page == 9
            then decode_nine w
            else (if page == 15
                then decode_branch (w / 1024) w
                else (if page == 12
                    then rjmp (w % 4096)
                    else (if page == 11
                        then decode_io (w / 2048) w
                        else (if page == 8
                            then decode_displacement (w / 512 % 2) w
                            else (if page == 10
                                then decode_displacement (w / 512 % 2) w
                                else decode_registers (w / 1024) w)))))))

unfoldable pub decode : ℕ → Instr
decode w = decode_page (w / 4096) w

-- Code as instructions, one to a word: the second word of a call or a jump is an `operand`.
unfoldable pub disassemble : List ℕ → List Instr
unfolding decode
disassemble [] = []
disassemble (w ∷ []) = decode w ∷ []
disassemble (w ∷ v ∷ ws) =
    let single = disassemble (v ∷ ws) in
    let double = disassemble ws in
    if w == 0x940e
    then call v ∷ operand ∷ double
    else (if w == 0x940c then jmp v ∷ operand ∷ double else decode w ∷ single)
