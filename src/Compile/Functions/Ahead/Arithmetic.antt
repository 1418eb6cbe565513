-- ===== src/Compile/Functions/Ahead/Arithmetic.antt =====
-- The handlers of src/instructions.c for numbers do not bring the cursor back.
use wait.Common.{ℕ}
use wait.Instructions.Numeric.{
  Comparison, eq, ne, lt_s, lt_u, gt_s, gt_u, le_s, le_u, ge_s, ge_u, compare_registers, Shift, shl,
  shr_s, shr_u, shift_once,
}
use wait.Instructions.Numeric.{
  i32_const, i64_const, i32_eqz, i32_compare, i32_clz, i32_add, i32_sub, i32_mul, Division, i32_div,
  Logic, i32_logic, i32_shift,
}
use wait.Compile.Functions.Ahead.{Ahead, ahead_rules}
use wait.Compile.Functions.Ahead.Readers.{reading_rules}
use wait.Compile.Functions.Ahead.Sequences.{sequence_rules}

module _ (n : ℕ) where
  pub Ahead-i32_const : (end : ℕ) → Ahead n (i32_const end)
  unfolding i32_const
  Ahead-i32_const end = search (ahead_rules, reading_rules, sequence_rules) depth 12

  pub Ahead-i64_const : (end : ℕ) → Ahead n (i64_const end)
  unfolding i64_const
  Ahead-i64_const end = search (ahead_rules, reading_rules, sequence_rules) depth 16

  pub Ahead-i32_eqz : Ahead n i32_eqz
  unfolding i32_eqz
  Ahead-i32_eqz = search (ahead_rules, sequence_rules) depth 20

  Ahead-compare_registers : (op : Comparison) → Ahead n (compare_registers op)
  unfolding compare_registers
  Ahead-compare_registers = elim [
    | eq ↦ search (ahead_rules)
    | ne ↦ search (ahead_rules)
    | lt_s ↦ search (ahead_rules)
    | lt_u ↦ search (ahead_rules)
    | gt_s ↦ search (ahead_rules)
    | gt_u ↦ search (ahead_rules)
    | le_s ↦ search (ahead_rules)
    | le_u ↦ search (ahead_rules)
    | ge_s ↦ search (ahead_rules)
    | ge_u ↦ search (ahead_rules)
  ]

  pub Ahead-i32_compare : (op : Comparison) → Ahead n (i32_compare op)
  unfolding i32_compare
  Ahead-i32_compare op = search (ahead_rules, sequence_rules, Ahead-compare_registers) depth 16

  pub Ahead-i32_clz : Ahead n i32_clz
  unfolding i32_clz
  Ahead-i32_clz = search (ahead_rules, sequence_rules)

  pub Ahead-i32_add : Ahead n i32_add
  unfolding i32_add
  Ahead-i32_add = search (ahead_rules, sequence_rules) depth 12

  pub Ahead-i32_sub : Ahead n i32_sub
  unfolding i32_sub
  Ahead-i32_sub = search (ahead_rules, sequence_rules) depth 12

  pub Ahead-i32_mul : Ahead n i32_mul
  unfolding i32_mul
  Ahead-i32_mul = search (ahead_rules, sequence_rules) depth 12

  pub Ahead-i32_div : (op : Division) → Ahead n (i32_div op)
  unfolding i32_div
  Ahead-i32_div op = search (ahead_rules, sequence_rules) depth 12

  pub Ahead-i32_logic : (op : Logic) → Ahead n (i32_logic op)
  unfolding i32_logic
  Ahead-i32_logic op = search (ahead_rules, sequence_rules) depth 12

  Ahead-shift_once : (op : Shift) → Ahead n (shift_once op)
  unfolding shift_once
  Ahead-shift_once = elim [
    | shl ↦ search (ahead_rules)
    | shr_s ↦ search (ahead_rules)
    | shr_u ↦ search (ahead_rules)
  ]

  pub Ahead-i32_shift : (op : Shift) → Ahead n (i32_shift op)
  unfolding i32_shift
  Ahead-i32_shift op = search (ahead_rules, sequence_rules, Ahead-shift_once) depth 12

pub ruleset number_rules = (
  Ahead-i32_const, Ahead-i64_const, Ahead-i32_eqz, Ahead-i32_compare, Ahead-i32_clz, Ahead-i32_add,
  Ahead-i32_sub, Ahead-i32_mul, Ahead-i32_div, Ahead-i32_logic, Ahead-i32_shift,
)
