-- ===== src/Instructions.antt =====
-- src/instructions.c: what the handlers share. A function and a module are the parts of the structs
-- of include/types.h that the handlers read; a function is named by its index in the module's list.
pub mod Control
pub mod Calls
pub mod Variables
pub mod Loads
pub mod Numeric
pub mod Dispatch
use wait.Common.{
  ℕ, zero, suc, ◌+◌, ◌-◌, ◌*◌, ◌/◌, ◌%◌, ◌^◌, Bool, List, [], ◌∷◌, Result, ok, panic, trap,
}
use wait.Common.{
  Option, none, some, ◌==◌, ltb, leb, not, if◌then◌else◌, ◌||◌, length, get_elem?, set,
}
use wait.Common
use wait.Leb.{read_leb_u32, read_leb_i7, read_leb_i32, read_leb_i64, normalize_type}
use wait.Emit.{State, M, ◌>>=◌, ◌>>◌, pure, skip}
use wait.Ops.{Emitter}

pub record FuncType : Type 0 where
  pub args_num : ℕ
  pub return_type : ℕ
  pub args_type_list : List ℕ

pub record Func : Type 0 where
  pub wasm : ℕ
  pub wasm_end : ℕ
  pub func_type : FuncType
  pub num_locals : ℕ
  pub num_local_bytes : ℕ

-- The offsets of `global_list` are those that `wasm_global_init` sets.
pub record Module : Type 0 where
  pub functions : List Func
  pub import_num : ℕ
  pub global_offsets : List ℕ

abbrev pub wasm_type_none : ℕ
wasm_type_none = 0

abbrev pub wasm_type_i32 : ℕ
wasm_type_i32 = 1

-- A read or write of an array outside its bounds is undefined in C: the model stops.
abbrev pub at {ℓ} : {A : Type ℓ} → List A → ℕ → Result A
at xs i = elim (get_elem? xs i) [ none ↦ trap | some x ↦ ok x ]

abbrev pub put : List ℕ → ℕ → ℕ → Result (List ℕ)
put xs i v = if ltb i (length xs) then ok (set xs i v) else trap

abbrev pub lift : {A : Type 0} → Result A → M A
lift r s = Common.◌>>=◌ r (λ a. ok (a, s))

abbrev pub get_state : M State
get_state s = ok (s, s)

abbrev pub set_state : State → Emitter
set_state s' s = ok (tt, s')

abbrev pub change : (State → State) → Emitter
change f s = ok (tt, f s)

abbrev pub repeat : ℕ → Emitter → Emitter
repeat zero m = skip
repeat (suc n) m = do m; repeat n m

-- `ts.stack_top += n` and `ts.stack_top -= n` on a u16.
abbrev pub grow : ℕ → Emitter
grow n = change (λ s. record s { stack_top = (s.stack_top + n) % 2 ^ 16 })

abbrev pub shrink : ℕ → Emitter
shrink n = change (λ s. record s { stack_top = (s.stack_top + 2 ^ 16 - n) % 2 ^ 16 })

-- Reading an operand moves `*start`; the operand is the bit pattern.
abbrev pub read_with : ((ℕ → ℕ) → ℕ → ℕ → Result (ℕ × ℕ)) → ℕ → M ℕ
read_with reader end s =
    Common.◌>>=◌ (reader s.writer.rom s.start end) (λ r. ok (r.0, record s { start = r.1 }))

abbrev pub read_operand_u32 : ℕ → M ℕ
read_operand_u32 = read_with read_leb_u32

abbrev pub read_operand_i32 : ℕ → M ℕ
read_operand_i32 = read_with read_leb_i32

abbrev pub read_operand_i64 : ℕ → M ℕ
read_operand_i64 = read_with read_leb_i64

-- The type behind `block` and `loop`.
abbrev pub read_block_type : ℕ → M ℕ
read_block_type end = do convoluted ← read_with read_leb_i7 end; pure (normalize_type convoluted).0

-- `operand.num8[i]` and `operand.num16[0]`.
abbrev pub num8 : ℕ → ℕ → ℕ
num8 i v = v / 2 ^ (8 * i) % 2 ^ 8

abbrev pub num16 : ℕ → ℕ
num16 v = v % 2 ^ 16

-- `func == module->function_list[module->function_num - 1]`
unfoldable pub is_entry_func : Module → ℕ → Bool
is_entry_func module_ func = func + 1 == length module_.functions

-- `func->numLocals || func->funcType->args_num`
unfoldable pub has_frame : Func → Bool
has_frame f = not (f.num_locals == 0) || not (f.func_type.args_num == 0)
