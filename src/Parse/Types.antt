-- ===== src/Parse/Types.antt =====
-- src/parse.c: `ParseSection_Type`.
pub mod RoundTrip
use wait.Common.{
  ℕ, ◌+◌, ◌%◌, ◌^◌, List, [], ◌∷◌, ◌++◌, ◌==◌, if◌then◌else◌, Result, ok, ◌>>=◌, ◌>>◌, check,
}
use wait.Leb.{Flash, read_leb_u7, read_leb_u32, read_leb_i7, normalize_type}
use wait.Instructions.{FuncType}
use wait.Parse.{WasmModule, Fresh, allocate, for_each}

-- sizeof(func_type) - 2
abbrev pub func_type_size : ℕ
func_type_size = 7

-- `ReadLEB_i7` and `NormalizeType`; the result of `NormalizeType` is not looked at.
abbrev pub read_type : Flash → ℕ → ℕ → Result (ℕ × ℕ)
read_type flash end ptr = do
  (wasm_type, p) ← read_leb_i7 flash ptr end
  ok ((normalize_type wasm_type).0, p)

-- The type of one argument goes to the end of the list.
unfoldable pub read_argument : Flash → ℕ → ℕ → List ℕ × ℕ → Result (List ℕ × ℕ)
read_argument flash end a (types, ptr) = do
  (arg_type, p) ← read_type flash end ptr
  ok (types ++ arg_type ∷ [], p)

-- Without a result the byte for its type is left as the allocation has it.
unfoldable pub read_return_type : Flash → ℕ → ℕ → ℕ → Result (ℕ × ℕ)
read_return_type flash end unset ptr = do
  (return_count, p) ← read_leb_u7 flash ptr end
  if return_count == 0 then ok (unset, p) else read_type flash end p

-- `form != -32`, an i8.
unfoldable pub read_func_type :
    Fresh → Flash → ℕ → ℕ → List FuncType × ℕ → Result (List FuncType × ℕ)
read_func_type fresh flash end i (types, ptr) = do
  (form, p) ← read_leb_i7 flash ptr end
  check (form == 0xe0)
  (num_args, q) ← read_leb_u32 flash p end
  allocate (func_type_size + num_args) 1
  (args, r) ← for_each num_args 0 (read_argument flash end) ([], q)
  (return_type, t) ← read_return_type flash end (fresh.return_type i) r
  let ftype : FuncType = record {
    args_num = num_args;
    return_type = return_type;
    args_type_list = args;
  }
  ok (types ++ ftype ∷ [], t)

unfoldable pub parse_section_type : Fresh → Flash → ℕ → ℕ → WasmModule → Result WasmModule
parse_section_type fresh flash start end m = do
  (num_types, p) ← read_leb_u32 flash start end
  if num_types == 0 then ok m else do
    allocate num_types 2
    (types, q) ← for_each num_types 0 (read_func_type fresh flash end) ([], p)
    ok (record m { func_type_list = types })
