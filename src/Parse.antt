-- ===== src/Parse.antt =====
-- src/parse.c: the module that the parser builds, with the structs of include/types.h. A section is
-- read in place: its contents stay in the program memory, and the module holds their addresses.
pub mod Reading
pub mod Types
pub mod Functions
pub mod Storage
pub mod Code
pub mod Load
use wait.Common.{
  ℕ, zero, suc, ◌+◌, ◌*◌, ◌^◌, Bool, List, Option, ltb, if◌then◌else◌, Result, ok, trap, ◌>>=◌,
}
use wait.Instructions.{FuncType, Func}

pub record MemoryInfo : Type 0 where
  pub init_page_num : ℕ
  pub max_page_num : ℕ

-- The offset is set later, by the compiler.
pub record WasmGlobal : Type 0 where
  pub init_expr : ℕ
  pub init_expr_size : ℕ
  pub type : ℕ
  pub imported : Bool
  pub is_mutable : ℕ

-- The texts without the zero byte behind them.
pub record ImportInfo : Type 0 where
  pub module_utf8 : List ℕ
  pub field_utf8 : List ℕ

-- `func` has the fields that the instruction handlers read.
pub record WasmFunction : Type 0 where
  pub name : List ℕ
  pub import_info : Option ImportInfo
  pub compiled : ℕ
  pub func : Func

-- `size` is the last field. It is stored as a u32, so that its upper half goes to the two bytes behind
-- the struct: `spill`.
pub record DataSegment : Type 0 where
  pub init_expr : ℕ
  pub bytes : ℕ
  pub init_expr_size : ℕ
  pub memory_region : ℕ
  pub size : ℕ
  pub spill : ℕ

-- The numbers of types, functions, globals and segments are the lengths of the lists. The last field
-- is what parsing has put into the two bytes behind the table of segments, which belong to no field
-- and are not allocated, or none where it has not written there.
pub record WasmModule : Type 0 where
  pub memory : MemoryInfo
  pub memory_imported : Bool
  pub import_num : ℕ
  pub global_list : List WasmGlobal
  pub function_list : List WasmFunction
  pub func_type_list : List FuncType
  pub data_segment_list : List DataSegment
  pub behind_segments : Option ℕ

-- What the memory that `sys_malloc` gives holds before it is written: it is `malloc`, which clears
-- nothing. The i-th type, the i-th function and the module are allocated one by one.
pub record Fresh : Type 0 where
  pub return_type : ℕ → ℕ
  pub function : ℕ → WasmFunction
  pub module_ : WasmModule

-- The size given to `sys_malloc` is a u16: a table of more bytes is not allocated in full, and
-- writing to it is undefined.
abbrev pub allocate : ℕ → ℕ → Result (Unit {0})
allocate count size = if ltb (count * size) (2 ^ 16) then ok tt else trap

-- `for (i = first; i < first + n; i++) body(i)` on a state.
unfoldable pub for_each {ℓ} : {S : Type ℓ} → ℕ → ℕ → (ℕ → S → Result S) → S → Result S
for_each zero i body s = ok s
for_each (suc n) i body s = body i s >>= for_each n (i + 1) body
