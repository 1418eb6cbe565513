-- ===== src/Compile/Entry/Loaded.antt =====
-- src/compile.c: the linear memory and the globals as compiled code finds them.
use wait.Common.{ℕ, ◌+◌, ◌*◌, ◌%◌, ◌^◌, ◌≤◌, ◌<◌, ◌≡◌, ◌⊎◌}
use wait.Common.{List, length, get_elem?, some, ok}
use wait.Leb.{Flash}
use wait.Memory.{Memory, dword_at, embed_i32load}
use wait.Imports.{copy_from_rom}
use wait.Parse.{DataSegment}
use wait.Compile.Placing.{Placing, Space}
use wait.Compile.Placing.Placed.{memory_of}
use wait.Compile.Entry.{copy_data}

-- A memory with the first segment in the program memory, from `start` on, the second one in RAM,
-- from `start'` on, the globals as numbers before it, and all else in RAM as it was.
pub record HoldsModule (space : Space) (globals : List ℕ) (ram : ℕ → ℕ) (d f : DataSegment)
    (start start' : ℕ) (mem : Memory) : Type 0 where
  pub read_only :
      (k : ℕ) → k < d.size → embed_i32load 0 (start + k) mem ≡ ok (dword_at mem.rom (d.bytes + k))
  pub writable :
      (k : ℕ)
      → k + 3 < f.size
      → embed_i32load 0 (start' + k) mem ≡ ok (dword_at (λ a. mem.rom a % 2 ^ 8) (f.bytes + k))
  pub numbers :
      (i v : ℕ)
      → get_elem? globals i ≡ some v
      → v < 2 ^ 32
      → dword_at mem.ram (space.mem_space + 4 * i) ≡ v
  pub rest :
      (a : ℕ)
      → (a < space.mem_space) ⊎ (space.mem_space + space.globals_size + f.size ≤ a)
      → mem.ram a ≡ ram a

-- The bytes of RAM after the segment and the globals are copied.
module _ (space : Space) (globals : List ℕ) (flash : Flash) (s : Placing) (ram : ℕ → ℕ)
    (in_use : 0 < space.mem_space) (whole : 4 * length globals ≡ space.globals_size)
    (behind : s.copy_to ≡ space.mem_space + space.globals_size)
    (fits : s.copy_to + s.copy_size ≤ 2 ^ 16) where
  segment_bytes : ℕ → ℕ
  segment_bytes = copy_from_rom s.copy_size flash s.copy_from s.copy_to ram

  module _ (d f : DataSegment) (start start' : ℕ) where
    copied : Memory
    copied = memory_of s flash (copy_data space globals flash s ram)
