-- ===== src/Compile/Functions/Ahead/Handlers.antt =====
-- The handlers of src/instructions.c do not bring the cursor back, and reading an opcode moves it on.
use wait.Common.{ℕ, ◌%◌, ◌^◌, List, [], ◌∷◌, ◌==◌, if◌then◌else◌}
use wait.Emit.{State, skip, ◌>>◌}
use wait.Ops.{emit_x_pop_32bit}
use wait.Instructions.{Module, Func, FuncType, wasm_type_i32, shrink}
use wait.Instructions.Control.{
  leave_function, pop_block, close_block, unwind, open_block, end_, br, br_if,
}
use wait.Instructions.Calls
use wait.Instructions.Calls.{place_arguments, push_result, call_import, call_wasm, select}
use wait.Instructions.Variables.{
  load_local, store_local, load_global, store_global, local_get, local_set, local_tee, global_get,
  global_set,
}
use wait.Instructions.Loads.{
  Width, full, byte_unsigned, byte_signed, half_unsigned, half_signed, extend, extend_byte_signed,
  extend_half_signed, store_eight, i32_load, i64_load, i32_store, i64_store,
}
use wait.Compile.Functions.Ahead.{Ahead, Ahead-skip, Ahead-then, ahead_rules}
use wait.Compile.Functions.Ahead.Readers.{reading_rules}
use wait.Compile.Functions.Ahead.Sequences.{sequence_rules}

module _ (n : ℕ) where
  pub Ahead-open_block : (end : ℕ) (target : State → ℕ) → Ahead n (open_block end target)
  unfolding open_block
  Ahead-open_block end target = search (ahead_rules, reading_rules) depth 12

  pub Ahead-leave : (m : Module) (index : ℕ) (func : Func) → Ahead n (leave_function m index func)
  unfolding leave_function
  Ahead-leave m index func = search (ahead_rules, sequence_rules) depth 12

  pub Ahead-pop_block : (count : ℕ) → Ahead n (pop_block count)
  unfolding pop_block
  Ahead-pop_block count = search (ahead_rules, sequence_rules) depth 12

  pub Ahead-close_block : Ahead n close_block
  unfolding close_block
  Ahead-close_block = search (ahead_rules, sequence_rules, Ahead-pop_block) depth 20

  pub Ahead-end : (m : Module) (index : ℕ) (func : Func) → Ahead n (end_ m index func)
  unfolding end_
  Ahead-end m index func = search (ahead_rules, Ahead-leave, Ahead-close_block)

  pub Ahead-unwind : (k : ℕ) → Ahead n (unwind k)
  unfolding unwind
  Ahead-unwind k = search (ahead_rules, sequence_rules) depth 12

  pub Ahead-br : (end : ℕ) → Ahead n (br end)
  unfolding br
  Ahead-br end = search (ahead_rules, reading_rules, Ahead-unwind) depth 12

  pub Ahead-br_if : (end : ℕ) → Ahead n (br_if end)
  unfolding br_if
  Ahead-br_if end = search (ahead_rules, reading_rules, sequence_rules, Ahead-unwind) depth 20

  pub Ahead-place : (types : List ℕ) (base : ℕ) → Ahead n (place_arguments types base)
  unfolding place_arguments
  Ahead-place [] base = Ahead-skip n
  Ahead-place (t ∷ ts) base =
      Ahead-then n
        (if t == wasm_type_i32 then (do emit_x_pop_32bit (base % 2 ^ 8); shrink 1) else skip) _
        (search (ahead_rules, sequence_rules)) (Ahead-place ts _)

  pub Ahead-push_result : (type : FuncType) → Ahead n (push_result type)
  unfolding push_result
  Ahead-push_result type = search (ahead_rules, sequence_rules)

  pub Ahead-call_import : (type : FuncType) (index : ℕ) → Ahead n (call_import type index)
  unfolding call_import
  Ahead-call_import type index = search (ahead_rules, Ahead-place, Ahead-push_result)

  pub Ahead-call_wasm : (type : FuncType) (index : ℕ) → Ahead n (call_wasm type index)
  unfolding call_wasm
  Ahead-call_wasm type index = search (ahead_rules, sequence_rules, Ahead-push_result)

  pub Ahead-call : (m : Module) (end : ℕ) → Ahead n (Calls.call m end)
  unfolding Calls.call
  Ahead-call m end = search (ahead_rules, reading_rules, Ahead-call_import, Ahead-call_wasm) depth 9

  pub Ahead-drop : Ahead n Calls.drop
  unfolding Calls.drop
  Ahead-drop = search (ahead_rules, sequence_rules)

  pub Ahead-select : Ahead n select
  unfolding select
  Ahead-select = search (ahead_rules, sequence_rules) depth 20

  pub Ahead-load_local : (base : ℕ) → Ahead n (load_local base)
  unfolding load_local
  Ahead-load_local base = search (ahead_rules) depth 20 fits 3000

  pub Ahead-store_local : (base : ℕ) → Ahead n (store_local base)
  unfolding store_local
  Ahead-store_local base = search (ahead_rules) depth 20 fits 3000

  pub Ahead-load_global : (offset : ℕ) → Ahead n (load_global offset)
  unfolding load_global
  Ahead-load_global offset = search (ahead_rules) depth 20 fits 3000

  pub Ahead-store_global : (offset : ℕ) → Ahead n (store_global offset)
  unfolding store_global
  Ahead-store_global offset = search (ahead_rules) depth 20 fits 3000

  pub Ahead-local_get : (func : Func) (end : ℕ) → Ahead n (local_get func end)
  unfolding local_get
  Ahead-local_get func end =
      search (ahead_rules, reading_rules, sequence_rules, Ahead-load_local) depth 9

  pub Ahead-local_set : (func : Func) (end : ℕ) → Ahead n (local_set func end)
  unfolding local_set
  Ahead-local_set func end =
      search (ahead_rules, reading_rules, sequence_rules, Ahead-store_local) depth 9

  pub Ahead-local_tee : (func : Func) (end : ℕ) → Ahead n (local_tee func end)
  unfolding local_tee
  Ahead-local_tee func end =
      search (ahead_rules, reading_rules, sequence_rules, Ahead-store_local) depth 9

  pub Ahead-global_get : (m : Module) (end : ℕ) → Ahead n (global_get m end)
  unfolding global_get
  Ahead-global_get m end =
      search (ahead_rules, reading_rules, sequence_rules, Ahead-load_global) depth 9

  pub Ahead-global_set : (m : Module) (end : ℕ) → Ahead n (global_set m end)
  unfolding global_set
  Ahead-global_set m end =
      search (ahead_rules, reading_rules, sequence_rules, Ahead-store_global) depth 9

  pub Ahead-extend : (width : Width) → Ahead n (extend width)
  unfolding extend extend_byte_signed extend_half_signed
  Ahead-extend = elim [
    | full ↦ search (ahead_rules)
    | byte_unsigned ↦ search (ahead_rules)
    | byte_signed ↦ search (ahead_rules) depth 20
    | half_unsigned ↦ search (ahead_rules)
    | half_signed ↦ search (ahead_rules) depth 20
  ]

  pub Ahead-store_eight : (base : ℕ) → Ahead n (store_eight base)
  unfolding store_eight
  Ahead-store_eight base = search (ahead_rules) depth 12

  pub Ahead-i32_load : (width : Width) (end : ℕ) → Ahead n (i32_load width end)
  unfolding i32_load
  Ahead-i32_load width end =
      search (ahead_rules, reading_rules, sequence_rules, Ahead-extend) depth 20

  pub Ahead-i64_load : (end : ℕ) → Ahead n (i64_load end)
  unfolding i64_load
  Ahead-i64_load end = search (ahead_rules, reading_rules, sequence_rules) depth 20

  pub Ahead-i32_store : (callee end : ℕ) → Ahead n (i32_store callee end)
  unfolding i32_store
  Ahead-i32_store callee end = search (ahead_rules, reading_rules, sequence_rules) depth 20

  pub Ahead-i64_store : (end : ℕ) → Ahead n (i64_store end)
  unfolding i64_store
  Ahead-i64_store end =
      search (ahead_rules, reading_rules, sequence_rules, Ahead-store_eight) depth 20 fits 5000

pub ruleset control_rules = (
  Ahead-open_block, Ahead-leave, Ahead-end, Ahead-br, Ahead-br_if, Ahead-call, Ahead-drop,
  Ahead-select,
)

pub ruleset memory_rules = (
  Ahead-local_get, Ahead-local_set, Ahead-local_tee, Ahead-global_get, Ahead-global_set,
  Ahead-i32_load, Ahead-i64_load, Ahead-i32_store, Ahead-i64_store,
)
