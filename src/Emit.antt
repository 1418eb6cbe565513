-- ===== src/Emit.antt =====
-- src/rtc_emit.c and the translation state of include/types.h: words of code go to a buffer, which
-- is optimised and written to the program memory when it is full or flushed.
pub mod Optimise
pub mod Labels
pub mod Position
use wait.Common.{
  ℕ, zero, suc, ◌+◌, ◌-◌, ◌*◌, ◌/◌, ◌%◌, ◌^◌, Bool, true, false, ◌&&◌, List, [], ◌∷◌, ◌++◌,
}
use wait.Common.{◌==◌, ltb, leb, if◌then◌else◌, length, take, drop, Result, ok, panic}
use wait.Common
use wait.Wkreprog.{Writer}
use wait.Wkreprog

-- RTC_CODEBUFFER_SIZE
abbrev pub rtc_codebuffer_size : ℕ
rtc_codebuffer_size = 96

-- The globals `ts` and `blct`, the code buffer up to `codebuffer_position`, the page writer, and
-- the cursor `*start` in the WebAssembly code. A pc is a byte offset in the compiled code, a u16.
pub record State : Type 0 where
  pub buffer : List ℕ
  pub pc : ℕ
  pub stack_top : ℕ
  pub wasm_globals_size : ℕ
  pub wasm_mem_space : ℕ
  pub next_id : ℕ
  pub top : ℕ
  pub block_label : List ℕ
  pub block_stack : List ℕ
  pub block_type : List ℕ
  pub block_pc : List ℕ
  pub writer : Writer
  pub start : ℕ

-- A function of the source that changes the state, and may stop.
abbrev pub M : Type 0 → Type 0
M A = State → Result (A × State)

abbrev pub pure : {A : Type 0} → A → M A
pure a s = ok (a, s)

infixl 5 ◌>>=◌ ◌>>◌
abbrev pub ◌>>=◌ : {A B : Type 0} → M A → (A → M B) → M B
◌>>=◌ m f s = Common.◌>>=◌ (m s) (λ r. f r.0 r.1)

abbrev pub ◌>>◌ : {B : Type 0} → M (Unit {0}) → M B → M B
◌>>◌ m k s = Common.◌>>=◌ (m s) (λ r. k r.1)

abbrev pub skip : M (Unit {0})
skip s = ok (tt, s)

abbrev pub stop : {A : Type 0} → M A
stop s = panic

-- PUSH R25, R24, R23, R22; POP R22, R23, R24, R25.
abbrev pub push_pop : List ℕ
push_pop = 0x939f ∷ 0x938f ∷ 0x937f ∷ 0x936f ∷ 0x916f ∷ 0x917f ∷ 0x918f ∷ 0x919f ∷ []

-- Does the list begin with these words?
unfoldable pub starts_with : List ℕ → List ℕ → Bool
starts_with [] ws = true
starts_with (v ∷ vs) [] = false
starts_with (v ∷ vs) (w ∷ ws) = v == w && starts_with vs ws

-- The labels behind the removed words move down by 16 bytes. The number of labels never passes the
-- length of the list, since a block that finds no place for its label stops the compiler.
unfoldable pub lower_labels : ℕ → ℕ → List ℕ → List ℕ
lower_labels n curr_pc [] = []
lower_labels zero curr_pc (p ∷ ps) = p ∷ ps
lower_labels (suc n) curr_pc (p ∷ ps) =
    (if ltb curr_pc p then (p + 2 ^ 16 - 16) % 2 ^ 16 else p) ∷ lower_labels n curr_pc ps

abbrev pub curr_pc : ℕ → ℕ → ℕ → ℕ
curr_pc pc buffer_len i = (pc + 2 ^ 16 - buffer_len * 2 + i * 2) % 2 ^ 16

-- The body of the loop of `rtc_optimise` at word `i` of the buffer.
unfoldable pub optimise_round : ℕ → State → State
optimise_round i s =
    if starts_with push_pop (drop i s.buffer)
    then record s {
      buffer = take i s.buffer ++ drop (i + 8) s.buffer;
      block_pc = lower_labels s.next_id (curr_pc s.pc (length s.buffer) i) s.block_pc;
      pc = (s.pc + 2 ^ 16 - 16) % 2 ^ 16;
    }
    else s

-- `i < buffer_len - 8`, where the length may have shrunk.
unfoldable pub optimise_loop : ℕ → ℕ → State → State
optimise_loop zero i s = s
optimise_loop (suc fuel) i s =
    let rest = optimise_loop fuel (i + 1) (optimise_round i s) in
    if ltb (i + 8) (length s.buffer) then rest else s

-- `i` grows in each round and the buffer does not: its length is fuel enough.
unfoldable pub rtc_optimise : State → State
rtc_optimise s = if ltb (length s.buffer) 8 then s else optimise_loop (length s.buffer) 0 s

-- The buffer as bytes, low byte of each word first.
unfoldable pub word_bytes : List ℕ → List ℕ
word_bytes [] = []
word_bytes (w ∷ ws) = (w % 2 ^ 8) ∷ (w / 2 ^ 8) ∷ word_bytes ws

abbrev pub write_buffer : State → Result (Unit {0} × State)
write_buffer s =
    Common.◌>>=◌
      (Wkreprog.write false (2 * length s.buffer % 2 ^ 16) (word_bytes s.buffer) s.writer)
      (λ w. ok (tt, record s { writer = w; buffer = [] }))

unfoldable pub emit_flush_to_flash : M (Unit {0})
emit_flush_to_flash s = if length s.buffer == 0 then ok (tt, s) else write_buffer (rtc_optimise s)

unfoldable pub emit_raw_word : ℕ → M (Unit {0})
emit_raw_word word s =
    let s' = record s { buffer = s.buffer ++ word ∷ []; pc = (s.pc + 2) % 2 ^ 16 } in
    if leb rtc_codebuffer_size (length s'.buffer) then emit_flush_to_flash s' else ok (tt, s')

unfoldable pub emit : ℕ → M (Unit {0})
emit opcode = emit_raw_word (opcode % 2 ^ 16)

unfoldable pub emit2 : ℕ → ℕ → M (Unit {0})
emit2 opcode1 opcode2 = do emit_raw_word (opcode1 % 2 ^ 16); emit_raw_word (opcode2 % 2 ^ 16)

-- Not counted in `ts.pc`.
unfoldable pub emit_without_optimisation : ℕ → M (Unit {0})
emit_without_optimisation word = do
  emit_flush_to_flash
  λ s. ok (tt, record s { buffer = s.buffer ++ (word % 2 ^ 16) ∷ [] })
  emit_flush_to_flash
