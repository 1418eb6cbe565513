-- ===== src/Parse/Storage.antt =====
-- src/parse.c: the sections for the memory, the globals and the data.
pub mod Expressions
use wait.Common.{ℕ, zero, suc, ◌+◌, ◌-◌, ◌%◌, ◌^◌, false, List, [], ◌∷◌, ◌++◌, ltb, ◌==◌}
use wait.Common.{Option, some, ◌/◌, if◌then◌else◌, Result, ok, ◌>>=◌, ◌>>◌, check}
use wait.Leb.{Flash, read_leb_u7, read_leb_u32}
use wait.Parse.{WasmModule, WasmGlobal, DataSegment, MemoryInfo, allocate, for_each}
use wait.Parse.Types.{read_type}

-- The pages at the start and, behind a flag, the pages at most.
unfoldable pub parse_type_memory : Flash → ℕ → ℕ → Result (MemoryInfo × ℕ)
parse_type_memory flash end ptr = do
  (flag, p) ← read_leb_u7 flash ptr end
  (init_page_num, q) ← read_leb_u32 flash p end
  if flag == 0 then ok (record { init_page_num = init_page_num; max_page_num = 0 }, q) else do
    (max_page_num, r) ← read_leb_u32 flash q end
    ok (record { init_page_num = init_page_num; max_page_num = max_page_num }, r)

unfoldable pub parse_section_memory : Flash → ℕ → ℕ → WasmModule → Result WasmModule
parse_section_memory flash start end m = do
  (num_memories, p) ← read_leb_u32 flash start end
  check (num_memories == 1)
  (memory, q) ← parse_type_memory flash end p
  ok (record m { memory = memory })

-- The loop to the next byte 0x0b; the first number counts the addresses below the end.
unfoldable pub skip_expr : Flash → ℕ → ℕ → ℕ
skip_expr flash zero ptr = ptr
skip_expr flash (suc left) ptr = if flash ptr == 0x0b then ptr else skip_expr flash left (ptr + 1)

unfoldable pub parse_init_expr : Flash → ℕ → ℕ → ℕ
parse_init_expr flash end ptr =
    let p = skip_expr flash (end - ptr) ptr in if flash p == 0x0b then p + 1 else p

-- sizeof(wasm_global)
abbrev pub wasm_global_size : ℕ
wasm_global_size = 17

unfoldable pub read_global : Flash → ℕ → ℕ → List WasmGlobal × ℕ → Result (List WasmGlobal × ℕ)
read_global flash end i (globals, ptr) = do
  (type, p) ← read_type flash end ptr
  (is_mutable, q) ← read_leb_u7 flash p end
  let r = parse_init_expr flash end q
  check (ltb 1 (r - q))
  let global : WasmGlobal = record {
    init_expr = q;
    init_expr_size = r - q;
    type = type;
    imported = false;
    is_mutable = is_mutable;
  }
  ok (globals ++ global ∷ [], r)

unfoldable pub parse_section_global : Flash → ℕ → ℕ → WasmModule → Result WasmModule
parse_section_global flash start end m = do
  (num_globals, p) ← read_leb_u32 flash start end
  allocate num_globals wasm_global_size
  (globals, q) ← for_each num_globals 0 (read_global flash end) ([], p)
  ok (record m { global_list = globals })

-- sizeof(data_segment)
abbrev pub data_segment_size : ℕ
data_segment_size = 14

-- The size and the region are u16 fields that are stored as u32: the region's upper half goes to `size`,
-- which is stored after it.
unfoldable pub read_segment : Flash → ℕ → ℕ → List DataSegment × ℕ → Result (List DataSegment × ℕ)
read_segment flash end i (segments, ptr) = do
  (memory_region, p) ← read_leb_u32 flash ptr end
  let q = parse_init_expr flash end p
  check (ltb 1 ((q - p) % 2 ^ 16))
  (size, r) ← read_leb_u32 flash q end
  let segment : DataSegment = record {
    init_expr = p;
    bytes = r;
    init_expr_size = (q - p) % 2 ^ 16;
    memory_region = memory_region % 2 ^ 16;
    size = size % 2 ^ 16;
    spill = size / 2 ^ 16;
  }
  ok (segments ++ segment ∷ [], (r + size % 2 ^ 16) % 2 ^ 32)

-- Each segment's spill is overwritten by the next segment, whose first field stands there; the last
-- one's stays behind the table.
abbrev pub spilled : Option ℕ → List DataSegment → Option ℕ
spilled before [] = before
spilled before (d ∷ ds) = spilled (some d.spill) ds

unfoldable pub parse_section_data : Flash → ℕ → ℕ → WasmModule → Result WasmModule
parse_section_data flash start end m = do
  (num_data_segments, p) ← read_leb_u32 flash start end
  allocate num_data_segments data_segment_size
  (segments, q) ← for_each num_data_segments 0 (read_segment flash end) ([], p)
  ok (record m {
    data_segment_list = segments;
    behind_segments = spilled m.behind_segments segments;
  })
