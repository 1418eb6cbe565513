-- ===== src/Memory.antt =====
-- src/memory.c: the runtime's loads and stores on the linear memory, which has a read-only area in
-- the program memory and an area in RAM, and the indirect call.
-- RAM is a function from 16-bit addresses to bytes, the program memory from far addresses to bytes.
pub mod Areas
use wait.Common.{
  ℕ, ◌+◌, ◌-◌, ◌*◌, ◌/◌, ◌%◌, ◌^◌, ◌&&◌, ◌==◌, Bool, leb, ltb, if◌then◌else◌, Result, ok, trap,
}

pub record MemArea : Type 0 where
  pub start : ℕ
  pub end : ℕ
  pub target : ℕ

-- `mem_areas[0]` and `mem_areas[1]`.
pub record Memory : Type 0 where
  pub read_only : MemArea
  pub writable : MemArea
  pub rom : ℕ → ℕ
  pub ram : ℕ → ℕ

-- `target >= area.start && target < area.end`
abbrev pub in_area : MemArea → ℕ → Bool
in_area area target = leb area.start target && ltb target area.end

-- A u16 sum: what does not fit is cut off.
abbrev pub target_of : ℕ → ℕ → ℕ
target_of offset1 addr = (addr + offset1) % 2 ^ 16

-- A pointer into RAM has 16 bits.
abbrev pub ram_pointer : MemArea → ℕ → ℕ
ram_pointer area target = (area.target + target - area.start) % 2 ^ 16

abbrev pub far_pointer : MemArea → ℕ → ℕ
far_pointer area target = (area.target + target - area.start) % 2 ^ 32

-- Four bytes, low byte first.
abbrev pub dword_at : (ℕ → ℕ) → ℕ → ℕ
dword_at f p = f p + f (p + 1) * 2 ^ 8 + f (p + 2) * 2 ^ 16 + f (p + 3) * 2 ^ 24

abbrev pub ram_dword : (ℕ → ℕ) → ℕ → ℕ
ram_dword ram p = dword_at (λ a. ram (a % 2 ^ 16)) p

-- One byte of a number to RAM.
abbrev pub store_byte : ℕ → ℕ → (ℕ → ℕ) → ℕ → ℕ
store_byte p v ram a = if a == p % 2 ^ 16 then v % 2 ^ 8 else ram a

unfoldable pub embed_i32load : ℕ → ℕ → Memory → Result ℕ
embed_i32load offset1 addr m =
    let target = target_of offset1 addr in
    if in_area m.read_only target
    then ok (dword_at m.rom (far_pointer m.read_only target))
    else (if in_area m.writable target
        then ok (ram_dword m.ram (ram_pointer m.writable target))
        else trap)

unfoldable pub embed_i64load : ℕ → ℕ → Memory → Result ℕ
embed_i64load offset1 addr m =
    let target = target_of offset1 addr in
    if in_area m.read_only target
    then (let p = far_pointer m.read_only target in
        ok (dword_at m.rom p + dword_at m.rom (p + 4) * 2 ^ 32))
    else (if in_area m.writable target
        then (let p = ram_pointer m.writable target in
            ok (ram_dword m.ram p + ram_dword m.ram (p + 4) * 2 ^ 32))
        else trap)

-- The three stores differ in what they write.
abbrev pub store_with : ((ℕ → ℕ) → ℕ → ℕ → ℕ) → ℕ → ℕ → Memory → Result Memory
store_with write offset1 addr m =
    let target = target_of offset1 addr in
    if in_area m.read_only target
    then trap
    else (if in_area m.writable target
        then ok (record m { ram = write m.ram (ram_pointer m.writable target) })
        else trap)

abbrev pub write_8 : ℕ → (ℕ → ℕ) → ℕ → ℕ → ℕ
write_8 value ram p = store_byte p value ram

abbrev pub write_16 : ℕ → (ℕ → ℕ) → ℕ → ℕ → ℕ
write_16 value ram p = store_byte (p + 1) (value / 2 ^ 8) (store_byte p value ram)

abbrev pub write_32 : ℕ → (ℕ → ℕ) → ℕ → ℕ → ℕ
write_32 value ram p =
    store_byte (p + 3) (value / 2 ^ 24) (store_byte (p + 2) (value / 2 ^ 16) (write_16 value ram p))

unfoldable pub embed_i32store : ℕ → ℕ → ℕ → Memory → Result Memory
embed_i32store value offset1 addr = store_with (write_32 value) offset1 addr

unfoldable pub embed_i32store16 : ℕ → ℕ → ℕ → Memory → Result Memory
embed_i32store16 value offset1 addr = store_with (write_16 value) offset1 addr

unfoldable pub embed_i32store8 : ℕ → ℕ → ℕ → Memory → Result Memory
embed_i32store8 value offset1 addr = store_with (write_8 value) offset1 addr

-- The word that `icall` jumps to; neither its checks of the type nor of the bound are built.
unfoldable pub icall : (ℕ → ℕ) → ℕ → ℕ → ℕ
icall rom table_address index =
    let p = (table_address + 2 * index) % 2 ^ 32 in rom p + rom (p + 1) * 2 ^ 8
