-- ===== src/Compile/Placing.antt =====
-- src/compile.c: where `wasm_call_entry_method` places the linear memory, as it is built with
-- `flash_data`: the first data segment stays in the program memory, a second is copied to RAM.
pub mod Placed
use wait.Common.{ℕ, ◌+◌, ◌-◌, ◌*◌, ◌%◌, ◌^◌, List, [], ◌∷◌, ltb, leb, ◌&&◌, ◌==◌, if◌then◌else◌}
use wait.Common.{Option, none, some, Result, ok, ◌>>=◌}
use wait.Leb.{Flash, read_leb_u32}
use wait.Memory.{MemArea}
use wait.Parse.{DataSegment}

-- `mem_areas[0]` is not written where there is no segment; the copies to RAM are addresses and sizes.
pub record Placing : Type 0 where
  pub read_only : MemArea
  pub writable : MemArea
  pub malloc_record : ℕ
  pub copy_to : ℕ
  pub copy_from : ℕ
  pub copy_size : ℕ

-- The sizes and addresses as the code has them: `ts.wasm_mem_space` and the stack pointer are u32,
-- `ts.wasm_globals_size` is a u16.
pub record Space : Type 0 where
  pub mem_space : ℕ
  pub globals_size : ℕ
  pub stack_pointer : ℕ
  pub heap_base : ℕ

-- `start + STACK_POINTER() - mem_space - globals_size`, cut to a u16.
abbrev pub end_of_ram : Space → ℕ → ℕ
end_of_ram space start =
    (start + space.stack_pointer + 2 ^ 33 + 2 ^ 16 - space.mem_space - space.globals_size) % 2 ^ 16

abbrev pub first_free : Space → ℕ
first_free space = (space.mem_space + space.globals_size) % 2 ^ 32

-- The offset of a segment: the opcode of i32.const comes before it.
unfoldable pub segment_start : Flash → DataSegment → Result ℕ
segment_start flash d = do
  let initexpr = (d.init_expr + 1) % 2 ^ 32
  (start, p) ← read_leb_u32 flash initexpr ((initexpr + d.init_expr_size) % 2 ^ 32)
  ok start

-- An area of a u16 start and a u16 end for a segment of a u16 size.
abbrev pub area_of : ℕ → DataSegment → ℕ → MemArea
area_of start d target = record {
  start = start % 2 ^ 16;
  end = (start + d.size) % 2 ^ 16;
  target = target;
}

-- No segment: all of the memory is RAM.
unfoldable pub place_none : Space → Placing → Placing
place_none space s = record s {
  writable = record { start = 0; end = end_of_ram space 0; target = first_free space };
  malloc_record = 0;
}

-- One: RAM comes behind the area in the program memory.
unfoldable pub place_one : Space → Flash → DataSegment → Placing → Result Placing
place_one space flash d s = do
  start ← segment_start flash d
  let below = area_of start d d.bytes
  ok (record s {
    read_only = below;
    writable = record {
      start = below.end;
      end = end_of_ram space below.end;
      target = first_free space;
    };
    malloc_record = space.heap_base % 2 ^ 16;
  })

-- Two: the second segment is copied to the start of RAM, and its area reaches to the stack.
unfoldable pub place_two : Space → Flash → DataSegment → DataSegment → Placing → Result Placing
place_two space flash d e s = do
  start ← segment_start flash d
  start' ← segment_start flash e
  let area = area_of start' e (first_free space)
  let rest = space.stack_pointer + 2 ^ 33 + 2 ^ 16 - first_free space - e.size
  ok (record s {
    read_only = area_of start d d.bytes;
    writable = record area { end = (area.end + rest) % 2 ^ 16 };
    malloc_record = space.heap_base % 2 ^ 16;
    copy_to = first_free space % 2 ^ 16;
    copy_from = e.bytes;
    copy_size = e.size;
  })

-- With more than two segments nothing is placed: the areas are as they were. `pcpy_d` begins as 0.
unfoldable pub place_memory : Space → Flash → List DataSegment → Placing → Result Placing
place_memory space flash [] s = ok (place_none space (record s { copy_to = 0 }))
place_memory space flash (d ∷ []) s = place_one space flash d (record s { copy_to = 0 })
place_memory space flash (d ∷ e ∷ []) s = place_two space flash d e (record s { copy_to = 0 })
place_memory space flash (d ∷ e ∷ f ∷ ds) s = ok (record s { copy_to = 0 })
