-- ===== src/Compile.antt =====
-- src/compile.c: compiling a module. The functions of the firmware that compiled code calls stand at
-- addresses that the linker of the firmware chooses: they are a parameter, by the numbers of
-- `enum embed_func` of include/asm.h. So is the start of the space for compiled code.
pub mod Globals
pub mod Link
pub mod Refill
pub mod Functions
pub mod Modules
pub mod Placing
pub mod Entry
use wait.Common.{ℕ, ◌+◌, ◌*◌, ◌/◌, ◌%◌, ◌^◌, List, [], ◌∷◌, Result, ok, ◌>>=◌}
use wait.Emit.{State, M, emit_flush_to_flash}
use wait.Wkreprog.{Writer, open_raw, close, get_raw_position}

-- RTC_END_OF_COMPILED_CODE_SPACE
abbrev pub end_of_compiled_code_space : ℕ
end_of_compiled_code_space = 122880

-- The translation state and `rtc_start_of_next_method`, a u16 that counts words.
pub record Compiler : Type 0 where
  pub state : State
  pub next_method : ℕ

-- RTC_SET_START_OF_NEXT_METHOD
abbrev pub set_start_of_next_method : ℕ → Compiler → Compiler
set_start_of_next_method address c = record c { next_method = address / 2 % 2 ^ 16 }

abbrev pub with_writer : (Writer → Writer) → State → State
with_writer f s = record s { writer = f s.writer }

unfoldable pub compile_open : Compiler → Compiler
compile_open c = record c {
  state = with_writer (open_raw (c.next_method * 2) end_of_compiled_code_space) c.state;
}

unfoldable pub compile_close : Compiler → Result Compiler
compile_close c = do
  (done, s) ← emit_flush_to_flash c.state
  let next = set_start_of_next_method (get_raw_position s.writer) c
  ok (record next { state = with_writer close s })

-- Code that is emitted between opening and closing.
abbrev pub emitting : {A : Type 0} → M A → Compiler → Result (A × Compiler)
emitting m c = do (value, s) ← m c.state; ok (value, record c { state = s })
