-- ===== src/Instructions/Numeric/Shifts.antt =====
-- The shifts of src/instructions.c: what their loop computes.
use wait.Common.{
  ℕ, zero, suc, ◌+◌, ◌-◌, ◌*◌, ◌/◌, ◌%◌, ◌^◌, ◌<◌, ◌≤◌, ◌≡◌, refl, sym, ap, ◌∙◌, arith,
}
use wait.Common.{List, true, half_pow}
use native.Mathlib.Nat.{pow-suc}
use wait.Common.{◌≢◌, ◌⊎◌}
use wait.Asm.{asm_single_reg, asm_src_dest, asm_branch, asm_rjmp}
use wait.Ops.Words.{Emits, shrunk}
use wait.Avr.{disassemble}
use wait.Avr.Cpu.{Calls, Cpu, run, Ends, Leaves, bytes32, put_32, is_high}
use wait.Avr.Cpu.{decrement}
use wait.Avr.Kept.{Holds, Ends-map, Keeps-Leaves}
use wait.Instructions.Numeric.{Shift, shl, shr_s, shr_u, i32_shift}
use wait.Instructions.Numeric.ShiftLoop.{
  shift_value, i32_shift_words, i32_shift-Emits, shift_step, counts, loop_fuel, shift_times,
  shift_loop,
}

scale : (r q p : ℕ) → (r + q * 2 ^ 32) * p ≡ r * p + q * p * 2 ^ 32
scale r q p = omega arith

wrap_product : (x p : ℕ) → x % 2 ^ 32 * p % 2 ^ 32 ≡ x * p % 2 ^ 32
wrap_product x p =
    let e : x ≡ x % 2 ^ 32 + x / 2 ^ 32 * 2 ^ 32 = omega arith in
    let f : x * p ≡ x % 2 ^ 32 * p + x / 2 ^ 32 * p * 2 ^ 32 =
      ap (λ (t : ℕ). t * p) e ∙ scale (x % 2 ^ 32) (x / 2 ^ 32) p in
    omega arith

twice : (v p : ℕ) → (v + v) * p ≡ v * (p * 2)
twice v p = omega arith

-- `n` places one at a time are `n` places.
shift_times_lem : (op : Shift) (n v : ℕ) → v < 2 ^ 32 → shift_times op n v ≡ shift_value op n v
unfolding shift_times shift_step shift_value
shift_times_lem shl zero v h = ground arith
shift_times_lem shr_u zero v h = ground arith
shift_times_lem shr_s zero v h = ground arith
shift_times_lem shl (suc n) v h =
    shift_times_lem shl n ((v + v) % 2 ^ 32) (omega arith)
    ∙ wrap_product (v + v) (2 ^ n)
    ∙ ap (λ (t : ℕ). t % 2 ^ 32) (twice v (2 ^ n) ∙ ap (λ (t : ℕ). v * t) (sym (pow-suc 2 n)))
shift_times_lem shr_u (suc n) v h = shift_times_lem shr_u n (v / 2) (omega arith) ∙ half_pow v n
shift_times_lem shr_s (suc n) v h =
    shift_times_lem shr_s n (v / 2 + v / 2 ^ 31 * 2 ^ 31) (omega arith)
    ∙ ground (arith, half_pow v n, half_pow (2 ^ 32 - 1 - v) n)

loop_fuel_lem : (n k : ℕ) → loop_fuel n k ≡ 2 + 6 * n + k
unfolding loop_fuel
loop_fuel_lem zero k = omega arith
loop_fuel_lem (suc n) k = omega (arith, loop_fuel_lem n k)

module _ (calls : Calls) where
  runs_push :
      (op : Shift) (c : Cpu) (v : ℕ)
      → Holds 22 c v
      → Ends (run calls 5 (disassemble (i32_shift_words op)) 15 c) 19 (Leaves (bytes32 v c.stack) c)
  unfolding run disassemble asm_single_reg asm_src_dest asm_branch asm_rjmp i32_shift_words
  runs_push shl c v (e, f, g, h) =
      (refl, (rw (e, f, g, h) refl, refl, refl, refl, refl, refl, refl))
  runs_push shr_u c v (e, f, g, h) =
      (refl, (rw (e, f, g, h) refl, refl, refl, refl, refl, refl, refl))
  runs_push shr_s c v (e, f, g, h) =
      (refl, (rw (e, f, g, h) refl, refl, refl, refl, refl, refl, refl))

  module _ (c : Cpu) (a b : ℕ) (rest : List ℕ) (st : c.stack ≡ bytes32 b (bytes32 a rest)) where
    abbrev popped : Cpu
    popped = record c { regs = put_32 (put_32 c.regs 18 b) 22 a; stack = rest }

    runs_pop :
        (op : Shift) (k : ℕ)
        → run calls
            (suc (suc (suc (suc (suc (suc (suc (suc (suc k)))))))))
            (disassemble (i32_shift_words op))
            0
            c
          ≡ run calls k (disassemble (i32_shift_words op)) 13 popped
    unfolding run disassemble asm_single_reg asm_src_dest asm_branch asm_rjmp i32_shift_words
    runs_pop shl k = rw st refl
    runs_pop shr_u k = rw st refl
    runs_pop shr_s k = rw st refl

-- q is the quotient of a by p in two's complement, rounded down.
abbrev pub IsFloor : ℕ → ℕ → ℕ → Type 0
IsFloor a p q =
    (r : ℕ) × (r < p)
    × (((a < 2 ^ 31) × (a ≡ q * p + r)) ⊎ ((2 ^ 31 ≤ a) × ((2 ^ 32 - q) * p ≡ 2 ^ 32 - a + r)))

module _ (calls : Calls) (c : Cpu) (a b : ℕ) (rest : List ℕ) where
  -- For each shift, a below 2 ^ 32 and a count b whose lowest byte is at most 128, the handler emits
  -- `i32_shift_words op`, and this code ends within 16 + 6 * (b % 256) units of fuel with both
  -- numbers replaced by a shifted that many places (the sign is copied for shr_s); memory, R1 to R3
  -- and Y are kept.
  i32_shift_lem :
      (op : Shift)
      → c.stack ≡ bytes32 b (bytes32 a rest)
      → a < 2 ^ 32
      → b % 256 ≤ 128
      → Emits (i32_shift op) (i32_shift_words op) (shrunk 1)
        × Ends
            (run calls (16 + 6 * (b % 256)) (disassemble (i32_shift_words op)) 0 c)
            19
            (Leaves (bytes32 (shift_value op (b % 256) a) rest) c)
  i32_shift_lem op st ha hb =
      let n : ℕ = b % 256 in
      let p : Cpu = popped calls c a b rest st in
      let (c', r, h, l) = shift_loop calls op n 5 a p hb ha refl (refl, refl, refl, refl) in
      let e : 16 + 6 * n ≡ suc (suc (suc (suc (suc (suc (suc (suc (suc (loop_fuel n 5))))))))) =
        omega (arith, loop_fuel_lem n 5) in
      (
        i32_shift-Emits op,
        rw (e, runs_pop calls c a b rest st op (loop_fuel n 5), r, sym (shift_times_lem op n a ha))
            (Ends-map _ 19 _ _ (λ d q. Keeps-Leaves (shift_times op n a) p c' d l q)
              (runs_push calls op c' _ h)),
      )

  -- For i32.shl and i32.shr_u, with b on top of a below 2 ^ 32 on the stack and the lowest byte of b at
  -- most 128, the handler emits `i32_shift_words op`, and this code ends within 16 + 6 * (b % 256)
  -- units of fuel with both numbers replaced by a shifted that many places, with zeros shifted in;
  -- memory, R1 to R3 and Y are kept.
  pub i32_shift_logical :
      (op : Shift)
      → op ≢ shr_s
      → c.stack ≡ bytes32 b (bytes32 a rest)
      → a < 2 ^ 32
      → b % 256 ≤ 128
      → Emits (i32_shift op) (i32_shift_words op) (shrunk 1)
        × Ends
            (run calls (16 + 6 * (b % 256)) (disassemble (i32_shift_words op)) 0 c)
            19
            (Leaves (bytes32 (shift_value op (b % 256) a) rest) c)
  i32_shift_logical op logical = i32_shift_lem op

  -- For a count b whose lowest byte is above 128, the code of a shift ends with both numbers
  -- replaced by a, not shifted; memory, R1 to R3 and Y are kept.
  pub i32_shift_beyond :
      (op : Shift)
      → c.stack ≡ bytes32 b (bytes32 a rest)
      → 128 < b % 256
      → Ends (run calls 16 (disassemble (i32_shift_words op)) 0 c) 19 (Leaves (bytes32 a rest) c)
  i32_shift_beyond op st hb =
      let p : Cpu = popped calls c a b rest st in
      let x : is_high ((b % 256 + 255) % 256) ≡ true = ground arith in
      rw (runs_pop calls c a b rest st op 7, counts calls 5 p op true x)
        (runs_push calls op (decrement 18 p) a (refl, refl, refl, refl))
