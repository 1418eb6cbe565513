-- ===== src/Parse/Functions.antt =====
-- src/parse.c: `Module_AddFunction`, `ParseSection_Import` and `ParseSection_Function`.
pub mod Added
use wait.Common.{ℕ, ◌+◌, ◌-◌, ◌*◌, ◌/◌, ◌%◌, ◌^◌, true, List, [], ◌∷◌, ◌++◌, Option, none, some}
use wait.Common.{ltb, ◌==◌, if◌then◌else◌, length, get_elem?}
use wait.Common.{Result, ok, panic, trap, ◌>>=◌, ◌>>◌, or_panic}
use wait.Leb.{Flash, read_leb_u7, read_leb_u32, read_u8, read_utf8}
use wait.Parse.Types.{read_type}
use wait.Instructions.{FuncType, Func}
use wait.Parse.{WasmModule, WasmFunction, ImportInfo, MemoryInfo, Fresh, allocate, for_each}
use wait.Parse.Storage.{parse_type_memory}

-- `snprintf(name, 10, "%d", number)` into a buffer of 2, 3 or 4 bytes; more than three digits do not
-- fit.
unfoldable pub decimal_name : ℕ → Result (List ℕ)
decimal_name n =
    if ltb n 10
    then ok ((48 + n) ∷ [])
    else (if ltb n 100
        then ok ((48 + n / 10) ∷ (48 + n % 10) ∷ [])
        else (if ltb n 1000
            then ok ((48 + n / 100) ∷ (48 + n / 10 % 10) ∷ (48 + n % 10) ∷ [])
            else trap))

-- The name of an imported function, or the number of another.
abbrev pub function_name : Option ImportInfo → ℕ → Result (List ℕ)
function_name (some info) number = ok info.field_utf8
function_name none number = decimal_name number

-- `func->import` is set for an imported function only.
abbrev pub import_or : Option ImportInfo → Option ImportInfo → Option ImportInfo
import_or unset none = unset
import_or unset (some info) = some info

-- A new function at the end of the list: the other fields are as allocated.
abbrev pub new_function : WasmFunction → FuncType → Option ImportInfo → List ℕ → WasmFunction
new_function unset func_type info name = record unset {
  name = name;
  import_info = import_or unset.import_info info;
  func = record unset.func { func_type = func_type };
}

unfoldable pub add_function : Fresh → ℕ → Option ImportInfo → WasmModule → Result WasmModule
add_function fresh type_index info m =
    let old = length m.function_list in
    do
      allocate (old + 1) 2
      func_type ← or_panic (get_elem? m.func_type_list type_index)
      name ← function_name info (old + 1 - m.import_num)
      let func = new_function (fresh.function old) func_type info name
      ok (record m { function_list = m.function_list ++ func ∷ [] })

unfoldable pub import_function :
    Fresh → Flash → ℕ → ImportInfo → WasmModule × ℕ → Result (WasmModule × ℕ)
import_function fresh flash end info (m, ptr) = do
  (type_index, p) ← read_leb_u32 flash ptr end
  m' ← add_function fresh type_index (some info) m
  ok (record m' { import_num = m'.import_num + 1 }, p)

unfoldable pub import_memory : Flash → ℕ → WasmModule × ℕ → Result (WasmModule × ℕ)
import_memory flash end (m, ptr) = do
  (memory, p) ← parse_type_memory flash end ptr
  ok (record m { memory = memory; memory_imported = true }, p)

-- A global goes to the table of globals, which is not allocated yet.
unfoldable pub import_global : Flash → ℕ → WasmModule × ℕ → Result (WasmModule × ℕ)
import_global flash end (m, ptr) = do
  (type, p) ← read_type flash end ptr
  (is_mutable, q) ← read_leb_u7 flash p end
  trap

-- The four kinds of import. A table's description is not read.
unfoldable pub read_import_kind :
    Fresh → Flash → ℕ → ImportInfo → ℕ → WasmModule × ℕ → Result (WasmModule × ℕ)
read_import_kind fresh flash end info kind s =
    if kind == 0
    then import_function fresh flash end info s
    else (if kind == 1
        then ok s
        else (if kind == 2
            then import_memory flash end s
            else (if kind == 3 then import_global flash end s else panic)))

unfoldable pub read_import : Fresh → Flash → ℕ → ℕ → WasmModule × ℕ → Result (WasmModule × ℕ)
read_import fresh flash end i (m, ptr) = do
  (module_utf8, p) ← read_utf8 flash ptr end
  (field_utf8, q) ← read_utf8 flash p end
  (kind, r) ← read_u8 flash q end
  let info : ImportInfo = record { module_utf8 = module_utf8; field_utf8 = field_utf8 }
  read_import_kind fresh flash end info kind (m, r)

-- The counter is a u16, so that it never comes to 2 ^ 16 imports or more.
unfoldable pub parse_section_import : Fresh → Flash → ℕ → ℕ → WasmModule → Result WasmModule
parse_section_import fresh flash start end m = do
  (num_imports, p) ← read_leb_u32 flash start end
  (m', q) ← for_each num_imports 0 (read_import fresh flash end) (m, p)
  if ltb num_imports (2 ^ 16) then ok m' else panic

unfoldable pub read_function : Fresh → Flash → ℕ → ℕ → WasmModule × ℕ → Result (WasmModule × ℕ)
read_function fresh flash end i (m, ptr) = do
  (type_index, p) ← read_leb_u32 flash ptr end
  m' ← add_function fresh type_index none m
  ok (m', p)

unfoldable pub parse_section_function : Fresh → Flash → ℕ → ℕ → WasmModule → Result WasmModule
parse_section_function fresh flash start end m = do
  (num_functions, p) ← read_leb_u32 flash start end
  (m', q) ← for_each num_functions 0 (read_function fresh flash end) (m, p)
  ok m'
