-- ===== src/Imports.antt =====
-- src/user_import.c: the functions that a WebAssembly module imports, on the linear memory as it is
-- built with `flash_data`. Printing and tracing are output only; `printInt` gives its argument back.
pub mod Malloc
pub mod Copies
use wait.Common.{ℕ, zero, suc, ◌+◌, ◌-◌, ◌*◌, ◌%◌, ◌^◌, List, [], ◌∷◌, ltb, ◌==◌, if◌then◌else◌}
use wait.Common.{Result, ok, trap, Bool, ◌&&◌}
use wait.Memory.{MemArea, Memory, in_area, store_byte}

-- `malloc_record` is a u16; the result is where it stood.
unfoldable pub import_malloc : ℕ → ℕ → ℕ × ℕ
import_malloc size malloc_record = (malloc_record, (malloc_record + size) % 2 ^ 16)

-- addr_W2N and addr_W2N_P, sums on u32; a pointer into RAM has 16 bits.
abbrev pub addr_w2n : Memory → ℕ → ℕ
addr_w2n m wasm_addr = (m.writable.target + wasm_addr + 2 ^ 16 - m.writable.start) % 2 ^ 16

abbrev pub addr_w2n_p : Memory → ℕ → ℕ
addr_w2n_p m wasm_addr = (m.read_only.target + wasm_addr + 2 ^ 32 - m.read_only.start) % 2 ^ 32

-- The loop from the byte `i` on, `left` bytes more.
unfoldable pub memset_loop : ℕ → ℕ → ℕ → ℕ → (ℕ → ℕ) → ℕ → ℕ
memset_loop zero i p ch ram = ram
memset_loop (suc left) i p ch ram = memset_loop left (i + 1) p ch (store_byte (p + i) ch ram)

-- The counter is an `int` of 16 bits, which overflows at 2 ^ 15: this is undefined.
unfoldable pub import_memset : ℕ → ℕ → ℕ → Memory → Result (ℕ × Memory)
import_memset s ch n m =
    if ltb n (2 ^ 15)
    then ok (s, record m { ram = memset_loop n 0 (addr_w2n m s) ch m.ram })
    else trap

-- `memcpy_PF` from the program memory.
unfoldable pub copy_from_rom : ℕ → (ℕ → ℕ) → ℕ → ℕ → (ℕ → ℕ) → ℕ → ℕ
copy_from_rom zero rom from to ram = ram
copy_from_rom (suc left) rom from to ram =
    copy_from_rom left rom (from + 1) (to + 1) (store_byte to (rom from) ram)

-- `memcpy` in RAM.
unfoldable pub copy_in_ram : ℕ → ℕ → ℕ → (ℕ → ℕ) → ℕ → ℕ
copy_in_ram zero from to ram = ram
copy_in_ram (suc left) from to ram =
    copy_in_ram left (from + 1) (to + 1) (store_byte to (ram (from % 2 ^ 16)) ram)

-- Do `size` bytes from one address and from another have a byte in common?
unfoldable pub overlap : ℕ → ℕ → ℕ → Bool
overlap from to size = ltb from (to + size) && ltb to (from + size)

-- The size that the library functions take has 16 bits. The result is the source. What `memcpy` does
-- where the source and the target overlap is undefined.
unfoldable pub import_memcpy : ℕ → ℕ → ℕ → Memory → Result (ℕ × Memory)
unfolding overlap
import_memcpy d s n m =
    let size = n % 2 ^ 16 in
    if in_area m.read_only s
    then ok (s, record m { ram = copy_from_rom size m.rom (addr_w2n_p m s) (addr_w2n m d) m.ram })
    else (if overlap (addr_w2n m s) (addr_w2n m d) size
        then trap
        else ok (s, record m { ram = copy_in_ram size (addr_w2n m s) (addr_w2n m d) m.ram }))

unfoldable pub print_int : ℕ → ℕ
print_int res = res
