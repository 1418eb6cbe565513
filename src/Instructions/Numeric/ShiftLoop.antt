-- ===== src/Instructions/Numeric/ShiftLoop.antt =====
-- The words of a shift of src/instructions.c, and the loop that the processor runs.
use wait.Common.{ℕ, zero, suc, ◌+◌, ◌-◌, ◌*◌, ◌/◌, ◌%◌, ◌^◌, ◌<◌, ◌≤◌, ◌≡◌, refl, ap, ◌∙◌, arith}
use wait.Common.{List, [], ◌∷◌, Bool, true, false, ltb, if◌then◌else◌}
use wait.Asm
use wait.Asm.{asm_single_reg, asm_src_dest, asm_branch, asm_rjmp, forward, backward}
use wait.Ops.{emit_x_push_32bit, emit_x_pop_32bit}
use wait.Ops.Words.{emit_all, Emits, bind_assoc, pop_32, push_32, bytewise_words, shrunk}
use wait.Avr.{disassemble}
use wait.Avr.Cpu.{Calls, Cpu, run, bit, is_high}
use wait.Avr.Cpu.{add_with, shift_right, decrement}
use wait.Avr.Kept.{Holds, Keeps, Keeps-trans}
use wait.Avr.Long.{sum_bytes}
use wait.Instructions.Numeric.{Shift, shl, shr_s, shr_u, i32_shift, shift_once}

-- A number shifted by `n` places: the bits that come in are 0, or copies of the sign.
unfoldable pub shift_value : Shift → ℕ → ℕ → ℕ
shift_value shl n v = v * 2 ^ n % 2 ^ 32
shift_value shr_u n v = v / 2 ^ n
shift_value shr_s n v = if ltb v (2 ^ 31) then v / 2 ^ n else 2 ^ 32 - 1 - (2 ^ 32 - 1 - v) / 2 ^ n

abbrev shift_words : Shift → List ℕ → List ℕ
shift_words shl ws = bytewise_words Asm.opcode_add Asm.opcode_adc 22 22 ws
shift_words shr_u ws =
    asm_single_reg Asm.opcode_lsr 25
    ∷ asm_single_reg Asm.opcode_ror 24
    ∷ asm_single_reg Asm.opcode_ror 23
    ∷ asm_single_reg Asm.opcode_ror 22
    ∷ ws
shift_words shr_s ws =
    asm_single_reg Asm.opcode_asr 25
    ∷ asm_single_reg Asm.opcode_ror 24
    ∷ asm_single_reg Asm.opcode_ror 23
    ∷ asm_single_reg Asm.opcode_ror 22
    ∷ ws

unfoldable pub i32_shift_words : Shift → List ℕ
i32_shift_words op = pop_32 18 (
    pop_32 22 (
      asm_rjmp (forward 8)
      ∷ shift_words op (
          asm_single_reg Asm.opcode_dec 18
          ∷ asm_branch Asm.opcode_brpl (backward 12)
          ∷ push_32 22 [])))

pub i32_shift-Emits : (op : Shift) → Emits (i32_shift op) (i32_shift_words op) (shrunk 1)
unfolding i32_shift i32_shift_words shift_once emit_x_push_32bit emit_x_pop_32bit emit_all
i32_shift-Emits shl s = simp bind_assoc
i32_shift-Emits shr_u s = simp bind_assoc
i32_shift-Emits shr_s s = simp bind_assoc

abbrev shifted : Shift → Cpu → Cpu
shifted shl c =
    let c₀ = add_with 22 (c.regs 22) 0 c in
    let c₁ = add_with 23 (c₀.regs 23) (bit c₀.carry) c₀ in
    let c₂ = add_with 24 (c₁.regs 24) (bit c₁.carry) c₁ in
    add_with 25 (c₂.regs 25) (bit c₂.carry) c₂
shifted shr_u c =
    let c₀ = shift_right 25 0 c in
    let c₁ = shift_right 24 (bit c₀.carry) c₀ in
    let c₂ = shift_right 23 (bit c₁.carry) c₁ in shift_right 22 (bit c₂.carry) c₂
shifted shr_s c =
    let c₀ = shift_right 25 (c.regs 25 / 128) c in
    let c₁ = shift_right 24 (bit c₀.carry) c₀ in
    let c₂ = shift_right 23 (bit c₁.carry) c₁ in shift_right 22 (bit c₂.carry) c₂

-- One place.
unfoldable pub shift_step : Shift → ℕ → ℕ
shift_step shl v = (v + v) % 2 ^ 32
shift_step shr_u v = v / 2
shift_step shr_s v = v / 2 + v / 2 ^ 31 * 2 ^ 31

module _ (calls : Calls) (k : ℕ) (c : Cpu) where
  runs_shift :
      (op : Shift)
      → run calls (suc (suc (suc (suc k)))) (disassemble (i32_shift_words op)) 9 c
        ≡ run calls k (disassemble (i32_shift_words op)) 13 (shifted op c)
  unfolding run disassemble asm_single_reg asm_src_dest asm_branch asm_rjmp i32_shift_words
  runs_shift shl = refl
  runs_shift shr_u = refl
  runs_shift shr_s = refl

  runs_count :
      (op : Shift)
      → run calls (suc (suc k)) (disassemble (i32_shift_words op)) 13 c
        ≡ run calls k
            (disassemble (i32_shift_words op))
            (if is_high ((c.regs 18 + 255) % 256) then 15 else 9)
            (decrement 18 c)
  unfolding run disassemble asm_single_reg asm_src_dest asm_branch asm_rjmp i32_shift_words
  runs_count shl = refl
  runs_count shr_u = refl
  runs_count shr_s = refl

  -- The branch is taken as the sign of the new count says.
  pub counts :
      (op : Shift) (x : Bool)
      → is_high ((c.regs 18 + 255) % 256) ≡ x
      → run calls (suc (suc k)) (disassemble (i32_shift_words op)) 13 c
        ≡ run calls k (disassemble (i32_shift_words op)) (if x then 15 else 9) (decrement 18 c)
  counts op x e =
      runs_count op
      ∙ ap
          (λ (y : Bool).
            run calls k (disassemble (i32_shift_words op)) (if y then 15 else 9) (decrement 18 c))
          e

shifted-Holds :
    (op : Shift) (c : Cpu) (v : ℕ)
    → v < 2 ^ 32
    → Holds 22 c v
    → Holds 22 (shifted op c) (shift_step op v)
unfolding shift_step
shifted-Holds shl c v h (e, f, g, i) = rw (e, f, g, i) (sum_bytes v v)
shifted-Holds shr_u c v h (e, f, g, i) =
    rw (e, f, g, i) (ground arith, ground arith, ground arith, ground arith)
shifted-Holds shr_s c v h (e, f, g, i) =
    rw (e, f, g, i) (ground arith, ground arith, ground arith, ground arith)

shifted-Keeps :
    (op : Shift) (c : Cpu) → (Keeps c (shifted op c)) × ((shifted op c).regs 18 ≡ c.regs 18)
shifted-Keeps shl c = ((refl, refl, refl, refl, refl, refl, refl), refl)
shifted-Keeps shr_u c = ((refl, refl, refl, refl, refl, refl, refl), refl)
shifted-Keeps shr_s c = ((refl, refl, refl, refl, refl, refl, refl), refl)

-- Two steps for the last count, six for a round.
unfoldable pub loop_fuel : ℕ → ℕ → ℕ
loop_fuel zero k = suc (suc k)
loop_fuel (suc n) k = suc (suc (suc (suc (suc (suc (loop_fuel n k))))))

unfoldable pub shift_times : Shift → ℕ → ℕ → ℕ
shift_times op zero v = v
shift_times op (suc n) v = shift_times op n (shift_step op v)

shift_step-bound : (op : Shift) (v : ℕ) → v < 2 ^ 32 → shift_step op v < 2 ^ 32
unfolding shift_step
shift_step-bound shl v h = omega arith
shift_step-bound shr_u v h = omega arith
shift_step-bound shr_s v h = omega arith

module _ (calls : Calls) (op : Shift) where
  pub shift_loop :
      (n k v : ℕ) (c : Cpu)
      → n ≤ 128
      → v < 2 ^ 32
      → c.regs 18 ≡ n
      → Holds 22 c v
      → (c' : Cpu) × (run calls (loop_fuel n k) (disassemble (i32_shift_words op)) 13 c
          ≡ run calls k (disassemble (i32_shift_words op)) 15 c')
        × Holds 22 c' (shift_times op n v)
        × Keeps c c'
  unfolding loop_fuel shift_times
  shift_loop zero k v c hn hv e h =
      let b : is_high ((c.regs 18 + 255) % 256) ≡ true = rw e refl in
      (decrement 18 c, counts calls k c op true b, h, (refl, refl, refl, refl, refl, refl, refl))
  shift_loop (suc n) k v c hn hv e h =
      let b : is_high ((c.regs 18 + 255) % 256) ≡ false = rw e (ground arith) in
      let d : Cpu = shifted op (decrement 18 c) in
      let (l, q) = shifted-Keeps op (decrement 18 c) in
      let (c', r, h', l') =
        shift_loop n k (shift_step op v) d (omega arith) (shift_step-bound op v hv)
          (q ∙ omega arith) (shifted-Holds op (decrement 18 c) v hv h) in
      (
        c',
        counts calls _ c op false b ∙ (runs_shift calls (loop_fuel n k) (decrement 18 c) op ∙ r),
        h',
        Keeps-trans (decrement 18 c) d c' l l',
      )
