-- ===== src/Compile/Modules.antt =====
-- src/compile.c: `wasm_compile_module`, with `compile_deinit`.
use wait.Common.{ℕ, List, ◌==◌, not, length, Result, ok, check, ◌>>=◌, ◌>>◌}
use wait.Parse.{for_each}
use wait.Compile.Globals.{GlobalSpace, wasm_global_init}
use wait.Compile.Refill.{branch_pc_refill}
use wait.Compile.Functions.{Compilation, compile_init, compile_function}

-- What the linker of the firmware gives: the start of the code space, the addresses of its functions
-- and of the imported functions by name, and `__wait_end`, where the free memory begins.
pub record Firmware : Type 0 where
  pub code_space : ℕ
  pub embed_address : ℕ → ℕ
  pub imports : List (List ℕ × ℕ)
  pub wait_end : ℕ

-- The globals are set up, the functions compiled in order, and the jumps refilled; `heap_base` and
-- `entry_method` are as they were where nothing sets them.
unfoldable pub wasm_compile_module : Firmware → ℕ → Compilation → Result (GlobalSpace × Compilation)
wasm_compile_module firmware heap_base s = do
  globals ← wasm_global_init s.compiler.state.writer.rom heap_base s.module_.global_list
  check (not (firmware.wait_end == 0))
  let placed = record s.compiler.state {
    wasm_globals_size = globals.offset;
    wasm_mem_space = firmware.wait_end;
  }
  let ready = compile_init firmware.code_space (record s.compiler { state = placed })
  done ←
      for_each (length s.module_.function_list) 0
        (compile_function firmware.imports globals.offsets) (record s { compiler = ready })
  refilled ←
      branch_pc_refill firmware.code_space firmware.embed_address done.module_.function_list
        done.compiler
  ok (globals, record done { compiler = refilled })
