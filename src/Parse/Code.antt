-- ===== src/Parse/Code.antt =====
-- src/parse.c: `ParseSection_Code`.
pub mod Locals
pub mod Bodies
use wait.Common.{ℕ, ◌+◌, ◌*◌, ◌%◌, ◌^◌, List, none, some, Bool, ◌||◌, leb, ◌==◌, if◌then◌else◌}
use wait.Common.{get_elem?, set, Result, ok, trap, ◌>>=◌, ◌>>◌, check, panic, or_trap}
use wait.Leb.{Flash, read_leb_u32}
use wait.Parse.{WasmModule, WasmFunction, for_each}
use wait.Parse.Types.{read_type}

-- Four bytes for i32 and f32, eight for i64 and f64.
unfoldable pub local_size : ℕ → Result ℕ
local_size type =
    if type == 1 || type == 3 then ok 4 else (if type == 2 || type == 4 then ok 8 else panic)

-- A number of locals and their type; `numLocals` and `numLocalBytes` are u32.
unfoldable pub read_local_block : Flash → ℕ → ℕ → (ℕ × ℕ) × ℕ → Result ((ℕ × ℕ) × ℕ)
read_local_block flash end l ((num_locals, num_local_bytes), ptr) = do
  (var_count, p) ← read_leb_u32 flash ptr end
  (type, q) ← read_type flash end p
  size ← local_size type
  ok (((num_locals + var_count) % 2 ^ 32, (num_local_bytes + size * var_count) % 2 ^ 32), q)

-- The fields of the function are u16.
abbrev pub with_code : ℕ → ℕ → ℕ × ℕ → WasmFunction → WasmFunction
with_code ptr wasm_end locals f = record f {
  func = record f.func {
    wasm = ptr;
    wasm_end = wasm_end;
    num_locals = locals.0 % 2 ^ 16;
    num_local_bytes = locals.1 % 2 ^ 16;
  };
}

-- The list of functions has no entry for the code of a function that was not declared.
unfoldable pub set_code : ℕ → ℕ → ℕ → ℕ × ℕ → WasmModule → Result WasmModule
set_code index ptr wasm_end locals m = do
  f ← or_trap (get_elem? m.function_list index)
  ok (record m { function_list = set m.function_list index (with_code ptr wasm_end locals f) })

-- The locals and the instructions of a body that is not empty.
unfoldable pub read_code : Flash → ℕ → ℕ → ℕ → WasmModule × ℕ → Result (WasmModule × ℕ)
read_code flash end f size (m, ptr) = do
  let wasm_end = (ptr + size) % 2 ^ 32
  check (leb wasm_end end)
  (num_local_blocks, p) ← read_leb_u32 flash ptr end
  (locals, q) ← for_each num_local_blocks 0 (read_local_block flash end) ((0, 0), p)
  m' ← set_code (f + m.import_num) q wasm_end locals m
  ok (m', wasm_end)

unfoldable pub read_body : Flash → ℕ → ℕ → WasmModule × ℕ → Result (WasmModule × ℕ)
unfolding read_code
read_body flash end f (m, start) = do
  (size, ptr) ← read_leb_u32 flash start end
  if size == 0 then ok (m, ptr) else read_code flash end f size (m, ptr)

unfoldable pub parse_section_code : Flash → ℕ → ℕ → WasmModule → Result WasmModule
parse_section_code flash start end m = do
  (num_functions, p) ← read_leb_u32 flash start end
  (m', q) ← for_each num_functions 0 (read_body flash end) (m, p)
  ok m'
