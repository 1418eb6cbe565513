-- ===== src/Tests/Runtime.antt =====
-- Runs of the loads and stores of src/memory.c.
use wait.Common.{ℕ, ◌+◌, ◌%◌, ◌≤◌, ◌≡◌, arith, ◌⊎◌, inl, ok, trap}
use wait.Memory.{Memory, target_of, embed_i32load, embed_i32store, embed_i32store16}
use wait.Memory.{embed_i32store8}
use wait.Memory.Areas.{IsPlaced, address, load-store, store_stopped}

-- Data at 0 to 100 in the program memory, the rest up to 1000 in RAM from 0x300 on.
abbrev memory : Memory
memory = record {
  read_only = record { start = 0; end = 100; target = 0x10000 };
  writable = record { start = 100; end = 1000; target = 0x300 };
  rom = λ a. a % 256;
  ram = λ a. 0;
}

memory-IsPlaced : IsPlaced memory
memory-IsPlaced = record { below = omega arith; ordered = omega arith; fits = omega arith }

load-store_example :
    (m' : Memory) × (embed_i32store 0xdeadbeef 4 200 memory ≡ ok m')
    × (embed_i32load 4 200 m' ≡ ok 0xdeadbeef)
    × ((a : ℕ)
        → ((address memory (target_of 4 200) ≤ a) × (a ≤ address memory (target_of 4 200) + 3))
          ⊎ (m'.ram a ≡ memory.ram a))
load-store_example =
    load-store 0xdeadbeef 4 200 memory memory-IsPlaced (omega arith) (omega arith) (omega arith)

store_stopped_example :
    (embed_i32store 7 0 50 memory ≡ trap)
    × (embed_i32store16 7 0 50 memory ≡ trap)
    × (embed_i32store8 7 0 50 memory ≡ trap)
store_stopped_example = store_stopped 7 0 50 memory (inl (omega arith))
