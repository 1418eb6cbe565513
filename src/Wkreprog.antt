-- ===== src/Wkreprog.antt =====
-- src/wkreprog_impl.c: writing to the program memory through a buffer of one page.
-- The program memory is a function from addresses to bytes. An address is a u32, a size a u16.
-- `boot_page_erase`, `boot_page_fill` and `boot_page_write` of avr-libc together store a page.
pub mod Pages
pub mod View
pub mod Region
use wait.Common.{ℕ, zero, suc, ◌+◌, ◌-◌, ◌%◌, ◌^◌, Bool, true, false, ◌&&◌, List, [], ◌∷◌}
use wait.Common.{◌==◌, ltb, leb, if◌then◌else◌, get_or, drop, Result, ok, panic}

-- The page size of the ATmega128.
abbrev pub spm_pagesize : ℕ
spm_pagesize = 256

-- avr_flash_pagebuffer, avr_flash_pageaddress, avr_flash_end_of_safe_region, avr_flash_buf_len.
pub record Writer : Type 0 where
  pub rom : ℕ → ℕ
  pub pagebuffer : ℕ → ℕ
  pub pageaddress : ℕ
  pub end_of_safe_region : ℕ
  pub buf_len : ℕ

abbrev pub in_page : ℕ → ℕ → Bool
in_page page a = leb page a && ltb a (page + spm_pagesize)

-- `avr_flash_program_page`: the page holds the buffer, the rest of the memory stays.
unfoldable pub program_page : (ℕ → ℕ) → ℕ → (ℕ → ℕ) → ℕ → ℕ
program_page rom page buf a = if in_page page a then buf (a - page) else rom a

-- The loop of `avr_flash_program_page_if_not_modified`: does one of the first `n` bytes differ?
unfoldable pub page_differs : (ℕ → ℕ) → ℕ → (ℕ → ℕ) → ℕ → Bool
page_differs rom page buffer zero = false
page_differs rom page buffer (suc n) =
    if buffer n == rom (page + n) then page_differs rom page buffer n else true

unfoldable pub program_page_if_not_modified : (ℕ → ℕ) → ℕ → (ℕ → ℕ) → ℕ → ℕ
program_page_if_not_modified rom page buffer =
    if page_differs rom page buffer spm_pagesize then program_page rom page buffer else rom

-- "Fill the buffer with the data currently in the file".
abbrev pub fill_buffer : (ℕ → ℕ) → ℕ → ℕ → ℕ
fill_buffer rom page i = rom (page + i)

unfoldable pub get_raw_position : Writer → ℕ
get_raw_position s = s.pageaddress + s.buf_len

-- The allocation of the buffer succeeds.
unfoldable pub open_raw : ℕ → ℕ → Writer → Writer
open_raw start end_of_safe_region s =
    let page = start - start % spm_pagesize in
    record s {
      pagebuffer = fill_buffer s.rom page;
      pageaddress = page;
      end_of_safe_region = end_of_safe_region;
      buf_len = start % spm_pagesize;
    }

-- `memcpy` into the buffer from an offset on.
abbrev pub copy_to : (ℕ → ℕ) → ℕ → ℕ → List ℕ → ℕ → ℕ
copy_to buffer at n bytes i =
    if leb at i && ltb i (at + n) then get_or bytes (i - at) 0 else buffer i

abbrev pub bytes_on_page : ℕ → ℕ → ℕ
bytes_on_page buf_len size =
    if ltb spm_pagesize ((buf_len + size) % 2 ^ 16) then spm_pagesize - buf_len else size

-- "If we filled a whole page, write it to flash".
unfoldable pub advance : ℕ → Writer → Writer
advance n s =
    if s.buf_len + n == spm_pagesize
    then (let rom = program_page_if_not_modified s.rom s.pageaddress s.pagebuffer in
        let page = s.pageaddress + spm_pagesize in
        record s {
          rom = rom;
          pagebuffer = fill_buffer rom page;
          pageaddress = page;
          buf_len = (s.buf_len + n) % spm_pagesize;
        })
    else record s { buf_len = (s.buf_len + n) % spm_pagesize }

-- The body of the `while` loop on `n` bytes of this page.
unfoldable pub write_chunk : Bool → ℕ → List ℕ → Writer → Writer
write_chunk skip n bytes s =
    advance n (if skip then s else record s { pagebuffer = copy_to s.pagebuffer s.buf_len n bytes })

-- Each round takes a byte at least, so `size` rounds are enough.
unfoldable pub write_loop : ℕ → Bool → ℕ → List ℕ → Writer → Writer
write_loop zero skip size bytes s = s
write_loop (suc fuel) skip size bytes s =
    let n = bytes_on_page s.buf_len size in
    let rest = write_loop fuel skip (size - n) (drop n bytes) (write_chunk skip n bytes s) in
    if size == 0 then s else rest

-- With `skip` the data is not read. The end of the data is a sum of u32 numbers.
unfoldable pub write : Bool → ℕ → List ℕ → Writer → Result Writer
write skip size bytes s =
    if s.pageaddress == 0
    then ok s
    else (if ltb s.end_of_safe_region ((s.pageaddress + s.buf_len + size) % 2 ^ 32)
        then panic
        else ok (write_loop size skip size bytes s))

unfoldable pub close : Writer → Writer
close s =
    let rest = λ (i : ℕ). if leb s.buf_len i then s.rom (s.pageaddress + i) else s.pagebuffer i in
    if s.buf_len == 0 then record s { pageaddress = 0 } else record s {
      rom = program_page_if_not_modified s.rom s.pageaddress rest;
      pagebuffer = rest;
      pageaddress = 0;
    }
