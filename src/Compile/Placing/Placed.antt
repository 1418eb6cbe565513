-- ===== src/Compile/Placing/Placed.antt =====
-- src/compile.c: the areas that `wasm_call_entry_method` sets are fit for the loads and stores of
-- src/memory.c.
use wait.Common.{ℕ, ◌+◌, ◌-◌, ◌%◌, ◌^◌, ◌≤◌, ◌<◌, ◌≡◌, refl, [], ◌∷◌, ok, arith}
use wait.Leb.{Flash}
use wait.Memory.{MemArea, Memory}
use wait.Memory.Areas.{IsPlaced}
use wait.Parse.{DataSegment}
use wait.Compile.Placing.{
  Placing, Space, end_of_ram, first_free, segment_start, place_one, place_two, place_memory,
}

-- The linear memory with the areas that were set.
abbrev pub memory_of : Placing → (ℕ → ℕ) → (ℕ → ℕ) → Memory
memory_of s rom ram = record {
  read_only = s.read_only;
  writable = s.writable;
  rom = rom;
  ram = ram;
}

-- The globals stand below the stack pointer, and a number at the last address still fits RAM.
pub record HasRoom (space : Space) : Type 0 where
  pub below_stack : space.mem_space + space.globals_size ≤ space.stack_pointer
  pub in_ram : space.stack_pointer + 3 ≤ 2 ^ 16

-- The bytes between the globals and the stack pointer.
abbrev pub free : Space → ℕ
free space = space.stack_pointer - space.mem_space - space.globals_size

-- The area ends in RAM where the stack begins.
abbrev pub EndsAtStack : Space → MemArea → Type 0
EndsAtStack space area = area.target + (area.end - area.start) ≡ space.stack_pointer

module _ (space : Space) (room : HasRoom space) (flash : Flash) (s : Placing)
    (rom ram : ℕ → ℕ) where
  abbrev one : ℕ → DataSegment → Placing → Placing
  one start d t = record t {
    read_only = record { start = start; end = start + d.size; target = d.bytes };
    writable = record {
      start = start + d.size;
      end = start + d.size + free space;
      target = space.mem_space + space.globals_size;
    };
    malloc_record = space.heap_base % 2 ^ 16;
    copy_to = 0;
  }

  abbrev two : ℕ → ℕ → DataSegment → DataSegment → Placing → Placing
  two start start' d f t = record t {
    read_only = record { start = start; end = start + d.size; target = d.bytes };
    writable = record {
      start = start';
      end = start' + free space;
      target = space.mem_space + space.globals_size;
    };
    malloc_record = space.heap_base % 2 ^ 16;
    copy_to = space.mem_space + space.globals_size;
    copy_from = f.bytes;
    copy_size = f.size;
  }

  -- Where the globals end at the stack pointer or below and the stack pointer is at most 2 ^ 16 -
  -- 3, neither of which the code checks, the module has one data segment, its offset reads as
  -- `start`, and the segment and the free bytes fit the 16-bit addresses from there on, the areas
  -- are placed as the loads and stores want them: the segment's addresses lead to its bytes in the
  -- program memory, the addresses behind it to RAM, from behind the globals to the stack pointer
  -- and no further.
  pub place_one-IsPlaced :
      (d : DataSegment) (start : ℕ)
      → segment_start flash d ≡ ok start
      → start + d.size + free space < 2 ^ 16
      → (s' : Placing) × (place_memory space flash (d ∷ []) s ≡ ok s')
        × IsPlaced (memory_of s' rom ram)
        × (s'.read_only ≡ record { start = start; end = start + d.size; target = d.bytes })
        × (s'.writable.start ≡ start + d.size)
        × (s'.writable.target ≡ space.mem_space + space.globals_size)
        × EndsAtStack space s'.writable
  unfolding place_memory place_one
  place_one-IsPlaced d start e fits =
      let b = room.below_stack in
      let i = room.in_ram in
      let low : start % 2 ^ 16 ≡ start = omega arith in
      let high : (start + d.size) % 2 ^ 16 ≡ start + d.size = omega arith in
      let end : end_of_ram space (start + d.size) ≡ start + d.size + free space = omega arith in
      let ram_start : first_free space ≡ space.mem_space + space.globals_size = omega arith in
      (
        one start d s,
        rw (e, low, high, end, ram_start) refl,
        record { below = omega arith; ordered = omega arith; fits = omega arith },
        refl,
        refl,
        refl,
        omega arith,
      )

  -- Where there is room (`HasRoom`), the module has two data segments, their offsets read as `start`
  -- and `start'`, the first ends where the second begins or before, the second fits the free bytes, and the free bytes fit the
  -- 16-bit addresses from `start'` on, the areas are placed as the loads and stores want them: the
  -- first segment's addresses lead to its bytes in the program memory, those from `start'` on to RAM,
  -- from behind the globals, where the second segment is copied to, to the stack pointer and no
  -- further.
  pub place_two-IsPlaced :
      (d f : DataSegment) (start start' : ℕ)
      → segment_start flash d ≡ ok start
      → segment_start flash f ≡ ok start'
      → start + d.size ≤ start'
      → f.size ≤ free space
      → start' + free space < 2 ^ 16
      → (s' : Placing) × (place_memory space flash (d ∷ f ∷ []) s ≡ ok s')
        × IsPlaced (memory_of s' rom ram)
        × (s'.read_only ≡ record { start = start; end = start + d.size; target = d.bytes })
        × (s'.writable.start ≡ start')
        × (s'.copy_to ≡ s'.writable.target)
        × (s'.copy_from ≡ f.bytes)
        × (s'.copy_size ≡ f.size)
        × (s'.writable.target ≡ space.mem_space + space.globals_size)
        × EndsAtStack space s'.writable
  unfolding place_memory place_two
  place_two-IsPlaced d f start start' e e' apart small fits =
      let b = room.below_stack in
      let i = room.in_ram in
      let low : start % 2 ^ 16 ≡ start = omega arith in
      let high : (start + d.size) % 2 ^ 16 ≡ start + d.size = omega arith in
      let low' : start' % 2 ^ 16 ≡ start' = omega arith in
      let ram_start : first_free space ≡ space.mem_space + space.globals_size = omega arith in
      let copy : (space.mem_space + space.globals_size) % 2 ^ 16
          ≡ space.mem_space + space.globals_size =
        omega arith in
      let end : ((start' + f.size) % 2 ^ 16
              + (space.stack_pointer
                  + 2 ^ 33
                  + 2 ^ 16
                  - (space.mem_space + space.globals_size)
                  - f.size))
            % 2 ^ 16
          ≡ start' + free space =
        omega arith in
      (
        two start start' d f s,
        rw (e, e', low, high, low', ram_start, copy, end) refl,
        record { below = omega arith; ordered = omega arith; fits = omega arith },
        refl,
        refl,
        refl,
        refl,
        refl,
        refl,
        omega arith,
      )
