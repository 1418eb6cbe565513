-- ===== src/Compile/Globals.antt =====
-- src/compile.c: `wasm_global_init`.
pub mod Offsets
use wait.Common.{ℕ, suc, ◌+◌, ◌-◌, ◌*◌, ◌%◌, ◌^◌, List, [], ◌∷◌, ◌++◌, ◌==◌, if◌then◌else◌, length}
use wait.Common.{Result, ok, panic, ◌>>=◌}
use wait.Leb.{Flash, read_leb_i32}
use wait.Instructions.{wasm_type_i32}
use wait.Parse.{WasmGlobal, for_each}

-- The numbers in `wasm_global_temp_space`, the offsets of the globals so far, the next offset and
-- `module_heap_base`.
pub record GlobalSpace : Type 0 where
  pub temp_space : List ℕ
  pub offsets : List ℕ
  pub offset : ℕ
  pub heap_base : ℕ

-- The global with the number `i`: its expression begins with the opcode of i32.const.
unfoldable pub init_global : Flash → ℕ → WasmGlobal → GlobalSpace → Result GlobalSpace
init_global flash i g s =
    if g.type == wasm_type_i32
    then (do
      let init_start = (g.init_expr + 1) % 2 ^ 32
      let init_end = (init_start + g.init_expr_size + 2 ^ 32 - 1) % 2 ^ 32
      (temp, p) ← read_leb_i32 flash init_start init_end
      ok (record {
        temp_space = s.temp_space ++ temp ∷ [];
        offsets = s.offsets ++ s.offset ∷ [];
        offset = (s.offset + 4) % 2 ^ 16;
        heap_base = if i == 0 then temp else s.heap_base;
      }))
    else panic

pub init_globals : Flash → ℕ → List WasmGlobal → GlobalSpace → Result GlobalSpace
init_globals flash i [] s = ok s
init_globals flash i (g ∷ gs) s = init_global flash i g s >>= init_globals flash (i + 1) gs

-- `module_heap_base` is as before where there is no global.
unfoldable pub wasm_global_init : Flash → ℕ → List WasmGlobal → Result GlobalSpace
wasm_global_init flash heap_base gs =
    init_globals flash 0 gs
      (record { temp_space = []; offsets = []; offset = 0; heap_base = heap_base })
