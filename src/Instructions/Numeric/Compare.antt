-- ===== src/Instructions/Numeric/Compare.antt =====
-- The comparisons of src/instructions.c: the words, and what the processor computes with them.
use wait.Common.{ℕ, suc, ◌^◌, ◌<◌, ◌≡◌, refl, sym, ap, List, [], ◌∷◌}
use wait.Common.{Bool, true, false, not, ltb, ◌==◌}
use wait.Asm
use wait.Asm.{asm_single_reg, asm_src_dest, asm_immediate, asm_branch, forward}
use wait.Ops.{emit_x_push_32bit, emit_x_pop_32bit}
use wait.Ops.Words.{
  emit_all, Emits, bind_assoc, pop_32, push_32, bytewise_words, load_words, shrunk,
}
use wait.Avr.{disassemble}
use wait.Avr.Cpu.{Calls, Cpu, run, Ends, Leaves, bytes32, bit, put_32, is_high}
use wait.Avr.Flags.{
  biased, carry_flag, zero_flag, sign_flag, difference₃, carry_flag_lem, zero_flag_lem,
  sign_flag_lem,
}
use wait.Instructions.Numeric.{Comparison, eq, ne, lt_s, lt_u, gt_s, gt_u, le_s, le_u, ge_s, ge_u}
use wait.Instructions.Numeric.{i32_compare, compare_registers, comparison_branch}

-- The comparison of `a` with `b`, for the signed ones of the numbers in two's complement.
unfoldable pub compare : Comparison → ℕ → ℕ → Bool
compare eq a b = a == b
compare ne a b = not (a == b)
compare lt_u a b = ltb a b
compare gt_u a b = ltb b a
compare le_u a b = not (ltb b a)
compare ge_u a b = not (ltb a b)
compare lt_s a b = ltb (biased a) (biased b)
compare gt_s a b = ltb (biased b) (biased a)
compare le_s a b = not (ltb (biased b) (biased a))
compare ge_s a b = not (ltb (biased a) (biased b))

abbrev compare_words : ℕ → ℕ → ℕ → List ℕ
compare_words left right branch = pop_32 22 (
    pop_32 18 (
      bytewise_words Asm.opcode_cp Asm.opcode_cpc left right (
        load_words 1 0 0 0
          (asm_branch branch (forward 2) ∷ asm_immediate Asm.opcode_ldi 22 0 ∷ push_32 22 []))))

abbrev left_register : Comparison → ℕ
left_register le_s = 22
left_register le_u = 22
left_register gt_s = 22
left_register gt_u = 22
left_register _ = 18

abbrev right_register : Comparison → ℕ
right_register le_s = 18
right_register le_u = 18
right_register gt_s = 18
right_register gt_u = 18
right_register _ = 22

unfoldable pub i32_compare_words : Comparison → List ℕ
unfolding comparison_branch
i32_compare_words op = compare_words (left_register op) (right_register op) (comparison_branch op)

i32_compare-Emits : (op : Comparison) → Emits (i32_compare op) (i32_compare_words op) (shrunk 1)
unfolding i32_compare i32_compare_words compare_registers comparison_branch emit_x_push_32bit
    emit_x_pop_32bit emit_all
i32_compare-Emits eq s = simp bind_assoc
i32_compare-Emits ne s = simp bind_assoc
i32_compare-Emits lt_s s = simp bind_assoc
i32_compare-Emits lt_u s = simp bind_assoc
i32_compare-Emits gt_s s = simp bind_assoc
i32_compare-Emits gt_u s = simp bind_assoc
i32_compare-Emits le_s s = simp bind_assoc
i32_compare-Emits le_u s = simp bind_assoc
i32_compare-Emits ge_s s = simp bind_assoc
i32_compare-Emits ge_u s = simp bind_assoc

-- The result of the comparison, read off the flags.
unfoldable holds : Comparison → Cpu → Bool
holds eq d = d.zeroed
holds ne d = not d.zeroed
holds lt_s d = d.sign
holds gt_s d = d.sign
holds lt_u d = d.carry
holds gt_u d = d.carry
holds le_s d = not d.sign
holds ge_s d = not d.sign
holds le_u d = not d.carry
holds ge_u d = not d.carry

-- From the LDIs on: 1 or 0 is pushed, as the flag says.
module _ (calls : Calls) (regs memory : ℕ → ℕ) (stack : List ℕ) where
  abbrev with_flags : Bool → Bool → Bool → Bool → Cpu
  with_flags c z n s = record {
    regs = regs;
    carry = c;
    zeroed = z;
    negative = n;
    sign = s;
    stack = stack;
    memory = memory;
  }

  abbrev Pushes : Comparison → Cpu → Type 0
  Pushes op d =
      Ends (run calls 13 (disassemble (i32_compare_words op)) 12 d) 22
        (Leaves (bytes32 (bit (holds op d)) stack) d)

  flags-Pushes : (op : Comparison) (c z n s : Bool) → Pushes op (with_flags c z n s)
  unfolding run disassemble asm_single_reg asm_src_dest asm_immediate asm_branch i32_compare_words
      comparison_branch holds
  flags-Pushes eq _ true _ _ = (refl, (refl, refl, refl, refl, refl, refl, refl))
  flags-Pushes eq _ false _ _ = (refl, (refl, refl, refl, refl, refl, refl, refl))
  flags-Pushes ne _ true _ _ = (refl, (refl, refl, refl, refl, refl, refl, refl))
  flags-Pushes ne _ false _ _ = (refl, (refl, refl, refl, refl, refl, refl, refl))
  flags-Pushes lt_s _ _ _ true = (refl, (refl, refl, refl, refl, refl, refl, refl))
  flags-Pushes lt_s _ _ _ false = (refl, (refl, refl, refl, refl, refl, refl, refl))
  flags-Pushes gt_s _ _ _ true = (refl, (refl, refl, refl, refl, refl, refl, refl))
  flags-Pushes gt_s _ _ _ false = (refl, (refl, refl, refl, refl, refl, refl, refl))
  flags-Pushes lt_u true _ _ _ = (refl, (refl, refl, refl, refl, refl, refl, refl))
  flags-Pushes lt_u false _ _ _ = (refl, (refl, refl, refl, refl, refl, refl, refl))
  flags-Pushes gt_u true _ _ _ = (refl, (refl, refl, refl, refl, refl, refl, refl))
  flags-Pushes gt_u false _ _ _ = (refl, (refl, refl, refl, refl, refl, refl, refl))
  flags-Pushes le_s _ _ _ true = (refl, (refl, refl, refl, refl, refl, refl, refl))
  flags-Pushes le_s _ _ _ false = (refl, (refl, refl, refl, refl, refl, refl, refl))
  flags-Pushes ge_s _ _ _ true = (refl, (refl, refl, refl, refl, refl, refl, refl))
  flags-Pushes ge_s _ _ _ false = (refl, (refl, refl, refl, refl, refl, refl, refl))
  flags-Pushes le_u true _ _ _ = (refl, (refl, refl, refl, refl, refl, refl, refl))
  flags-Pushes le_u false _ _ _ = (refl, (refl, refl, refl, refl, refl, refl, refl))
  flags-Pushes ge_u true _ _ _ = (refl, (refl, refl, refl, refl, refl, refl, refl))
  flags-Pushes ge_u false _ _ _ = (refl, (refl, refl, refl, refl, refl, refl, refl))

pushes :
    (calls : Calls) (op : Comparison) (d : Cpu)
    → Ends
        (run calls 13 (disassemble (i32_compare_words op)) 12 d)
        22
        (Leaves (bytes32 (bit (holds op d)) d.stack) d)
pushes calls op d = flags-Pushes calls d.regs d.memory d.stack op d.carry d.zeroed d.negative d.sign

abbrev twelve_more : ℕ → ℕ
twelve_more n = suc (suc (suc (suc (suc (suc (suc (suc (suc (suc (suc (suc n)))))))))))

-- Up to the LDIs: both numbers are popped and compared byte by byte.
module _ (calls : Calls) (c : Cpu) (a b : ℕ) (rest : List ℕ) where
  abbrev popped_regs : ℕ → ℕ
  popped_regs = put_32 (put_32 c.regs 22 b) 18 a

  abbrev compared : ℕ → ℕ → Cpu
  compared l r = record {
    regs = popped_regs;
    carry = carry_flag l r;
    zeroed = zero_flag l r;
    negative = is_high (difference₃ l r);
    sign = sign_flag l r;
    stack = rest;
    memory = c.memory;
  }

  abbrev compared_by : Comparison → Cpu
  compared_by le_s = compared b a
  compared_by le_u = compared b a
  compared_by gt_s = compared b a
  compared_by gt_u = compared b a
  compared_by _ = compared a b

  reaches :
      (op : Comparison) (fuel : ℕ)
      → c.stack ≡ bytes32 b (bytes32 a rest)
      → run calls (twelve_more fuel) (disassemble (i32_compare_words op)) 0 c
        ≡ run calls fuel (disassemble (i32_compare_words op)) 12 (compared_by op)
  unfolding run disassemble asm_single_reg asm_src_dest asm_immediate asm_branch i32_compare_words
      comparison_branch
  reaches eq fuel st = rw st refl
  reaches ne fuel st = rw st refl
  reaches lt_s fuel st = rw st refl
  reaches lt_u fuel st = rw st refl
  reaches gt_s fuel st = rw st refl
  reaches gt_u fuel st = rw st refl
  reaches le_s fuel st = rw st refl
  reaches le_u fuel st = rw st refl
  reaches ge_s fuel st = rw st refl
  reaches ge_u fuel st = rw st refl

  holds-compared_by :
      (op : Comparison) → a < 2 ^ 32 → b < 2 ^ 32 → holds op (compared_by op) ≡ compare op a b
  unfolding holds compare
  holds-compared_by eq ha hb = sym (zero_flag_lem a b ha hb)
  holds-compared_by ne ha hb = ap not (sym (zero_flag_lem a b ha hb))
  holds-compared_by lt_s ha hb = sym (sign_flag_lem a b ha hb)
  holds-compared_by lt_u ha hb = sym (carry_flag_lem a b ha hb)
  holds-compared_by gt_s ha hb = sym (sign_flag_lem b a hb ha)
  holds-compared_by gt_u ha hb = sym (carry_flag_lem b a hb ha)
  holds-compared_by le_s ha hb = ap not (sym (sign_flag_lem b a hb ha))
  holds-compared_by le_u ha hb = ap not (sym (carry_flag_lem b a hb ha))
  holds-compared_by ge_s ha hb = ap not (sym (sign_flag_lem a b ha hb))
  holds-compared_by ge_u ha hb = ap not (sym (carry_flag_lem a b ha hb))

  finishes :
      (op : Comparison)
      → Ends
          (run calls 13 (disassemble (i32_compare_words op)) 12 (compared_by op))
          22
          (Leaves (bytes32 (bit (holds op (compared_by op))) rest) c)
  finishes eq = pushes calls eq _
  finishes ne = pushes calls ne _
  finishes lt_s = pushes calls lt_s _
  finishes lt_u = pushes calls lt_u _
  finishes gt_s = pushes calls gt_s _
  finishes gt_u = pushes calls gt_u _
  finishes le_s = pushes calls le_s _
  finishes le_u = pushes calls le_u _
  finishes ge_s = pushes calls ge_s _
  finishes ge_u = pushes calls ge_u _

  -- For each of the ten comparisons and any a, b below 2 ^ 32 with b on top of a on the stack, the
  -- handler emits `i32_compare_words op`, and this code ends behind its last word with both numbers
  -- replaced by 1 if the comparison of a with b holds (in two's complement for the signed ones) and
  -- by 0 if not; memory, R1 to R3 and Y are kept.
  pub i32_compare_lem :
      (op : Comparison)
      → c.stack ≡ bytes32 b (bytes32 a rest)
      → a < 2 ^ 32
      → b < 2 ^ 32
      → Emits (i32_compare op) (i32_compare_words op) (shrunk 1)
        × Ends
            (run calls 25 (disassemble (i32_compare_words op)) 0 c)
            22
            (Leaves (bytes32 (bit (compare op a b)) rest) c)
  i32_compare_lem op st ha hb =
      (i32_compare-Emits op, rw (reaches op 13 st, sym (holds-compared_by op ha hb)) (finishes op))
