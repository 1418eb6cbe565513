-- ===== src/Instructions/Dispatch.antt =====
-- `emit_single_instruction` of src/instructions.c: the handler for the next opcode.
use wait.Common.{ℕ, ◌+◌, List, [], ◌∷◌, ◌==◌, if◌then◌else◌}
use wait.Emit.{◌>>=◌, ◌>>◌, stop}
use wait.Ops.{Emitter}
use wait.Instructions.{Func, Module, get_state, set_state}
use wait.Instructions.Control.{unreachable, nop, block, loop, end_, br, br_if, return}
use wait.Instructions.Calls.{call, drop, select}
use wait.Instructions.Variables.{local_get, local_set, local_tee, global_get, global_set}
use wait.Instructions.Loads.{i32_load, i64_load, i32_store, i64_store, full, byte_unsigned}
use wait.Instructions.Loads.{byte_signed, half_unsigned, half_signed, embed_func_i32store}
use wait.Instructions.Loads.{embed_func_i32store16, embed_func_i32store8}
use wait.Instructions.Numeric.{i32_const, i64_const, i32_eqz, i32_compare, eq, ne, lt_s, lt_u, gt_s}
use wait.Instructions.Numeric.{gt_u, le_s, le_u, ge_s, ge_u, i32_clz, i32_add, i32_sub, i32_mul}
use wait.Instructions.Numeric.{i32_div, div_s, div_u, i32_logic, and_, or_, xor_, i32_shift, shl}
use wait.Instructions.Numeric.{shr_s, shr_u}

-- The handler of an opcode; any other opcode stops the compiler.
unfoldable pub find_handler : ℕ → List (ℕ × Emitter) → Emitter
find_handler op [] = stop
find_handler op ((code, handler) ∷ rest) =
    let other = find_handler op rest in if op == code then handler else other

module _ (module_ : Module) (index : ℕ) (func : Func) (end : ℕ) where
  abbrev pub handlers : List (ℕ × Emitter)
  handlers =
      (0x00, unreachable)
      ∷ (0x01, nop)
      ∷ (0x02, block end)
      ∷ (0x03, loop end)
      ∷ (0x0b, end_ module_ index func)
      ∷ (0x0c, br end)
      ∷ (0x0d, br_if end)
      ∷ (0x0f, return module_ index func)
      ∷ (0x10, call module_ end)
      ∷ (0x1a, drop)
      ∷ (0x1b, select)
      ∷ (0x20, local_get func end)
      ∷ (0x21, local_set func end)
      ∷ (0x22, local_tee func end)
      ∷ (0x23, global_get module_ end)
      ∷ (0x24, global_set module_ end)
      ∷ (0x28, i32_load full end)
      ∷ (0x2c, i32_load byte_signed end)
      ∷ (0x2d, i32_load byte_unsigned end)
      ∷ (0x2e, i32_load half_signed end)
      ∷ (0x2f, i32_load half_unsigned end)
      ∷ (0x29, i64_load end)
      ∷ (0x36, i32_store embed_func_i32store end)
      ∷ (0x3a, i32_store embed_func_i32store8 end)
      ∷ (0x3b, i32_store embed_func_i32store16 end)
      ∷ (0x37, i64_store end)
      ∷ (0x41, i32_const end)
      ∷ (0x42, i64_const end)
      ∷ (0x45, i32_eqz)
      ∷ (0x46, i32_compare eq)
      ∷ (0x47, i32_compare ne)
      ∷ (0x48, i32_compare lt_s)
      ∷ (0x49, i32_compare lt_u)
      ∷ (0x4a, i32_compare gt_s)
      ∷ (0x4b, i32_compare gt_u)
      ∷ (0x4c, i32_compare le_s)
      ∷ (0x4d, i32_compare le_u)
      ∷ (0x4e, i32_compare ge_s)
      ∷ (0x4f, i32_compare ge_u)
      ∷ (0x67, i32_clz)
      ∷ (0x6a, i32_add)
      ∷ (0x6b, i32_sub)
      ∷ (0x6c, i32_mul)
      ∷ (0x6d, i32_div div_s)
      ∷ (0x6e, i32_div div_u)
      ∷ (0x71, i32_logic and_)
      ∷ (0x72, i32_logic or_)
      ∷ (0x73, i32_logic xor_)
      ∷ (0x74, i32_shift shl)
      ∷ (0x75, i32_shift shr_s)
      ∷ (0x76, i32_shift shr_u)
      ∷ []

  unfoldable pub dispatch : ℕ → Emitter
  unfolding find_handler
  dispatch op = find_handler op handlers

  -- The opcode is read from the program memory, and the cursor moves on.
  unfoldable pub emit_single_instruction : Emitter
  unfolding dispatch
  emit_single_instruction = do
    s ← get_state
    set_state (record s { start = s.start + 1 })
    dispatch (s.writer.rom s.start)
