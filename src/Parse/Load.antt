-- ===== src/Parse/Load.antt =====
-- src/parse.c: `ParseModuleSection` and `wasm_load_module`, as main.c calls it.
pub mod Invariant
pub mod Kept
pub mod Valid
pub mod Sections
use wait.Common.{ℕ, zero, suc, ◌+◌, ◌*◌, ◌%◌, ◌^◌, ◌&&◌, ◌||◌, ltb, ◌==◌, if◌then◌else◌}
use wait.Common.{Result, ok, panic, trap, ◌>>=◌, ◌>>◌, check, or_trap}
use wait.Common.{List, [], ◌∷◌, Option, none, some, get_elem?, leb}
use wait.Leb.{Flash, read_leb_u7, read_leb_u32, read_u32}
use wait.Parse.{WasmModule, Fresh}
use wait.Parse.Types.{parse_section_type}
use wait.Parse.Functions.{parse_section_import, parse_section_function}
use wait.Parse.Storage.{parse_section_memory, parse_section_global, parse_section_data}
use wait.Parse.Code.{parse_section_code}

abbrev pub Parser : Type 0
Parser = ℕ → ℕ → WasmModule → Result WasmModule

-- The sections 0 to 11: a `NULL` is passed over.
abbrev pub s_parsers : Fresh → Flash → List (Option Parser)
s_parsers fresh flash =
    none
    ∷ some (parse_section_type fresh flash)
    ∷ some (parse_section_import fresh flash)
    ∷ some (parse_section_function fresh flash)
    ∷ none
    ∷ some (parse_section_memory flash)
    ∷ some (parse_section_global flash)
    ∷ none
    ∷ none
    ∷ none
    ∷ some (parse_section_code flash)
    ∷ some (parse_section_data flash)
    ∷ []

abbrev pub run_parser : Option Parser → Parser
run_parser none start end m = ok m
run_parser (some parser) start end m = parser start end m

-- The test lets section 12 through, which is behind the end of the table.
unfoldable pub parse_module_section : Fresh → Flash → ℕ → ℕ → ℕ → WasmModule → Result WasmModule
parse_module_section fresh flash section start num_bytes m =
    if leb section 12
    then (do
      parser ← or_trap (get_elem? (s_parsers fresh flash) section)
      run_parser parser start ((start + num_bytes) % 2 ^ 32) m)
    else ok m

-- The contents of a section in order, whose number has been read.
unfoldable pub enter_section :
    Fresh → Flash → ℕ → ℕ → (WasmModule × ℕ) × ℕ → Result ((WasmModule × ℕ) × ℕ)
enter_section fresh flash end section ((m, previous), pos) = do
  (section_length, p) ← read_leb_u32 flash pos end
  m' ← parse_module_section fresh flash section p section_length m
  ok ((m', if section == 0 then previous else section), (p + section_length) % 2 ^ 32)

-- Of a section that is not in order the number is passed over, and nothing else.
unfoldable pub load_section :
    Fresh → Flash → ℕ → (WasmModule × ℕ) × ℕ → Result ((WasmModule × ℕ) × ℕ)
unfolding enter_section
load_section fresh flash end ((m, previous), pos) = do
  (section, p) ← read_leb_u7 flash pos end
  if ltb previous section || section == 0
      then enter_section fresh flash end section ((m, previous), p)
      else ok ((m, previous), p)

-- `while (pos < end)`. A loop that has not ended when the fuel is used up is one that never ends.
unfoldable pub load_loop : ℕ → Fresh → Flash → ℕ → (WasmModule × ℕ) × ℕ → Result WasmModule
load_loop zero fresh flash end (s, pos) = panic
load_loop (suc fuel) fresh flash end (s, pos) =
    let rest = load_section fresh flash end (s, pos) >>= load_loop fuel fresh flash end in
    if ltb pos end then rest else ok s.0

-- As many rounds as there are pairs of an address and a section number.
abbrev pub load_fuel : ℕ
load_fuel = 2 ^ 39

-- `code->ptr`, a u32, and `code->length`, a u16: a number in their range stands for each.
unfoldable pub wasm_load_module : Fresh → Flash → ℕ → ℕ → Result WasmModule
wasm_load_module fresh flash ptr length =
    let end = (ptr + length) % 2 ^ 32 in
    do
      (magic, p) ← read_u32 flash ptr end
      (version, q) ← read_u32 flash p end
      check (magic == 0x6d736100 && version == 1)
      load_loop load_fuel fresh flash end ((fresh.module_, 0), q)
