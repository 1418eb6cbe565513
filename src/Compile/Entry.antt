-- ===== src/Compile/Entry.antt =====
-- src/compile.c: what `wasm_call_entry_method` does before it calls the entry method.
pub mod Bytes
pub mod Loaded
use wait.Common.{ℕ, ◌+◌, ◌/◌, ◌%◌, ◌^◌, List, [], ◌∷◌, take, ◌==◌, if◌then◌else◌, Result, ok, ◌>>=◌}
use wait.Leb.{Flash}
use wait.Memory.{store_byte}
use wait.Imports.{copy_from_rom}
use wait.Parse.{WasmModule}
use wait.Compile.Placing.{Placing, Space, place_memory}

-- `wasm_global_temp_space` as bytes: four for each number, the lowest first.
abbrev pub global_bytes : List ℕ → List ℕ
global_bytes [] = []
global_bytes (v ∷ vs) =
    v % 2 ^ 8 ∷ v / 2 ^ 8 % 2 ^ 8 ∷ v / 2 ^ 16 % 2 ^ 8 ∷ v / 2 ^ 24 % 2 ^ 8 ∷ global_bytes vs

-- `memcpy` of bytes to RAM.
unfoldable pub store_bytes : List ℕ → ℕ → (ℕ → ℕ) → ℕ → ℕ
store_bytes [] p ram = ram
store_bytes (b ∷ bs) p ram = store_bytes bs (p + 1) (store_byte p b ram)

-- The segment that is placed in RAM, if there is one, and then the globals.
unfoldable pub copy_data : Space → List ℕ → Flash → Placing → (ℕ → ℕ) → ℕ → ℕ
copy_data space globals flash s ram =
    let ram' =
      if s.copy_to == 0 then ram else copy_from_rom s.copy_size flash s.copy_from s.copy_to ram in
    store_bytes (take space.globals_size (global_bytes globals)) space.mem_space ram'

-- Nothing is done for an imported memory.
unfoldable pub set_up :
    Space → List ℕ → Flash → WasmModule → Placing → (ℕ → ℕ) → Result (Placing × (ℕ → ℕ))
set_up space globals flash m s ram = if m.memory_imported then ok (s, ram) else (do
  s' ← place_memory space flash m.data_segment_list s
  ok (s', copy_data space globals flash s' ram))
