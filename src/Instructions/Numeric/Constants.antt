-- ===== src/Instructions/Numeric/Constants.antt =====
-- i32.const of src/instructions.c: the words, and what the processor computes with them.
use wait.Common.{
  ℕ, ◌+◌, ◌-◌, ◌*◌, ◌/◌, ◌%◌, ◌^◌, ◌<◌, ◌≤◌, ◌≡◌, refl, sym, ap, ◌∙◌, List, [], ◌∷◌, arith,
}
use wait.Common.{Result, ok, ◌==◌, if◌then◌else◌, ne→==, bit_and_low, bit_and_high}
use wait.Common
use wait.Asm
use wait.Asm.{asm_single_reg, asm_immediate}
use wait.Leb.{read_leb_i32}
use wait.Emit.{State}
use wait.Ops.{emit_x_push_32bit}
use wait.Ops.Words.{emit_all, bind_assoc, push_32, load_words, grown}
use wait.Avr.{Instr, disassemble, ldi, push}
use wait.Avr.Cpu.{Calls, Cpu, run, Ends, Leaves, bytes32}
use wait.Avr.Decode.{decode-immediate}
use wait.Instructions.{num8}
use wait.Instructions.Numeric.{i32_const}

ldi_high : (d k : ℕ) → 16 ≤ d → d < 32 → k < 256 → 0xe000 ≤ asm_immediate Asm.opcode_ldi d k
unfolding asm_immediate
ldi_high d k low hd hk =
    let f₀ = bit_and_low 4 (k % 256) 15 refl in
    let f₁ = bit_and_high 4 (k % 256) 15 in
    let f₂ = bit_and_low 4 (k % 256 / 16) 15 refl in omega arith

-- A load of a constant is not the first word of a call or a jump.
disassemble-ldi :
    (d k : ℕ) (ws : List ℕ)
    → 16 ≤ d
    → d < 32
    → k < 256
    → disassemble (asm_immediate Asm.opcode_ldi d k ∷ ws) ≡ ldi d k ∷ disassemble ws
unfolding disassemble
disassemble-ldi d k [] low hd hk = ap (λ (i : Instr). i ∷ []) (decode-immediate d k low hd hk).0
disassemble-ldi d k (w ∷ ws) low hd hk =
    let l = ldi_high d k low hd hk in
    rw
      (
        ne→== (asm_immediate Asm.opcode_ldi d k) 0x940e (λ e. omega arith),
        ne→== (asm_immediate Asm.opcode_ldi d k) 0x940c (λ e. omega arith),
        (decode-immediate d k low hd hk).0,
      )
      refl

abbrev pub i32_const_words : ℕ → List ℕ
i32_const_words v = load_words (num8 0 v) (num8 1 v) (num8 2 v) (num8 3 v) (push_32 22 [])

pushes_disassembled : disassemble (push_32 22 []) ≡ push 25 ∷ push 24 ∷ push 23 ∷ push 22 ∷ []
unfolding disassemble asm_single_reg
pushes_disassembled = refl

const_disassembled :
    (v : ℕ)
    → disassemble (i32_const_words v)
      ≡ ldi 22 (num8 0 v)
        ∷ ldi 23 (num8 1 v)
        ∷ ldi 24 (num8 2 v)
        ∷ ldi 25 (num8 3 v)
        ∷ push 25
        ∷ push 24
        ∷ push 23
        ∷ push 22
        ∷ []
const_disassembled v =
    disassemble-ldi 22 (num8 0 v) _ (omega arith) (omega arith) (omega arith)
    ∙ ap (λ (is : List Instr). ldi 22 (num8 0 v) ∷ is)
        (disassemble-ldi 23 (num8 1 v) _ (omega arith) (omega arith) (omega arith)
          ∙ ap (λ (is : List Instr). ldi 23 (num8 1 v) ∷ is)
              (disassemble-ldi 24 (num8 2 v) _ (omega arith) (omega arith) (omega arith)
                ∙ ap (λ (is : List Instr). ldi 24 (num8 2 v) ∷ is)
                    (disassemble-ldi 25 (num8 3 v) _ (omega arith) (omega arith) (omega arith)
                      ∙ ap (λ (is : List Instr). ldi 25 (num8 3 v) ∷ is) pushes_disassembled)))

-- Where the operand reads as v, the handler of i32.const moves the cursor behind it and emits
-- `i32_const_words v`, and this code ends with v pushed on the stack; memory, R1 to R3 and Y are
-- kept.
pub i32_const_lem :
    (calls : Calls) (c : Cpu) (s : State) (end v after : ℕ)
    → read_leb_i32 s.writer.rom s.start end ≡ ok (v, after)
    → (i32_const end s
        ≡ Common.◌>>=◌
            (emit_all (i32_const_words v) (record s { start = after }))
            (λ r. ok (tt, grown 1 r.1)))
      × Ends (run calls 9 (disassemble (i32_const_words v)) 0 c) 8 (Leaves (bytes32 v c.stack) c)
unfolding i32_const run emit_x_push_32bit emit_all
i32_const_lem calls c s end v after reads =
    let e : num8 0 v ≡ v % 256 = omega arith in
    let lowest : num8 0 v ∷ num8 1 v ∷ num8 2 v ∷ num8 3 v ∷ c.stack ≡ bytes32 v c.stack =
      ap (λ (x : ℕ). x ∷ num8 1 v ∷ num8 2 v ∷ num8 3 v ∷ c.stack) e in
    (
      rw reads (simp bind_assoc),
      rw (const_disassembled v) (refl, (lowest, refl, refl, refl, refl, refl, refl)),
    )
