-- ===== src/Compile/Functions.antt =====
-- src/compile.c: `compile_init`, `wasm_compile_function` and the body of the loop of
-- `wasm_compile_module`.
pub mod Ahead
pub mod Ends
use wait.Common.{
  ℕ, zero, suc, ◌+◌, ◌-◌, ◌*◌, ◌/◌, ◌%◌, ◌^◌, Bool, List, [], ◌∷◌, ◌++◌, ltb, leb, ◌==◌,
}
use wait.Common.{if◌then◌else◌, length, set, get_elem?, map, Option, none, some}
use wait.Common.{Result, ok, panic, check, or_trap, not}
use wait.Common
use wait.Emit.{◌>>=◌, ◌>>◌, stop, skip}
use wait.Ops.{Emitter, emit_x_call_save, emit_local_init, emit_ldi, emit_movw}
use wait.Instructions.{Func, Module, get_state, set_state, is_entry_func, has_frame}
use wait.Instructions.Dispatch.{emit_single_instruction}
use wait.Parse.{WasmModule, WasmFunction}
use wait.Compile.{Compiler, compile_open, compile_close, set_start_of_next_method, emitting}
use wait.Compile.Link.{link_import}

-- What the instruction handlers read of a module.
abbrev pub as_module : WasmModule → List ℕ → Module
as_module m offsets = record {
  functions = map (λ (f : WasmFunction). f.func) m.function_list;
  import_num = m.import_num;
  global_offsets = offsets;
}

-- The entry function saves the registers and loads R2 and R3 with the start of the memory.
unfoldable pub entry_code : Emitter
entry_code = do
  emit_x_call_save
  s ← get_state
  emit_ldi 22 (s.wasm_mem_space % 2 ^ 8)
  emit_ldi 23 (s.wasm_mem_space / 2 ^ 8 % 2 ^ 8)
  emit_movw 2 22

module _ (module_ : Module) (index : ℕ) (func : Func) where
  -- `while (start < end)`: a loop that has not ended with the fuel does not end.
  pub compile_loop : ℕ → Emitter
  compile_loop zero = stop
  compile_loop (suc fuel) = do
    s ← get_state
    let rest : Emitter = do
      emit_single_instruction module_ index func func.wasm_end
      compile_loop fuel
    if ltb s.start func.wasm_end then rest else skip

  -- Every instruction takes a byte at least.
  unfoldable pub function_code : Emitter
  function_code = do
    s ← get_state
    set_state (record s { start = func.wasm })
    if is_entry_func module_ index then entry_code else skip
    if has_frame func then emit_local_init func.num_local_bytes else skip
    compile_loop (func.wasm_end - func.wasm + 1)

-- The result is the word address at which the code begins.
unfoldable pub wasm_compile_function : Module → ℕ → Func → Compiler → Result (ℕ × Compiler)
wasm_compile_function module_ index func c =
    let opened = compile_open c in
    if leb func.wasm func.wasm_end
    then Common.◌>>=◌ (emitting (function_code module_ index func) opened)
        (λ r. Common.◌>>=◌ (compile_close r.1) (λ closed. ok (r.1.next_method, closed)))
    else panic

-- `emit_init` empties the code buffer.
unfoldable pub compile_init : ℕ → Compiler → Compiler
compile_init code_space c =
    set_start_of_next_method code_space
      (record c { state = record c.state { buffer = []; pc = 0; stack_top = 0 } })

-- The module with its functions' addresses, the compiler and `entry_method`.
pub record Compilation : Type 0 where
  pub module_ : WasmModule
  pub compiler : Compiler
  pub entry_method : ℕ

abbrev pub set_compiled : ℕ → ℕ → WasmFunction → WasmModule → WasmModule
set_compiled i address f m = record m {
  function_list = set m.function_list i (record f { compiled = address });
}

module _ (imports : List (List ℕ × ℕ)) (offsets : List ℕ) where
  -- An imported function is linked.
  unfoldable pub link_function : ℕ → WasmFunction → Compilation → Result Compilation
  link_function i f s =
      Common.◌>>=◌ (link_import imports f.name)
        (λ address. ok (record s { module_ = set_compiled i address f s.module_ }))

  -- Any other is compiled; the last one is the entry.
  unfoldable pub compile_own : ℕ → WasmFunction → Compilation → Result Compilation
  compile_own i f s =
      let view = as_module s.module_ offsets in
      Common.◌>>=◌ (wasm_compile_function view i f.func s.compiler) (λ r. ok (record {
        module_ = set_compiled i r.0 f s.module_;
        compiler = r.1;
        entry_method = if is_entry_func view i then r.0 else s.entry_method;
      }))

  -- The body of the loop over the functions.
  unfoldable pub compile_function : ℕ → Compilation → Result Compilation
  unfolding link_function compile_own
  compile_function i s =
      Common.◌>>=◌ (or_trap (get_elem? s.module_.function_list i))
        (λ f. if ltb i s.module_.import_num then link_function i f s else compile_own i f s)
