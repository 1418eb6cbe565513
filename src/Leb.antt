-- ===== src/Leb.antt =====
-- src/utils.c: the readers of numbers and texts of the WebAssembly binary format.
-- The program memory is a function from addresses to bytes, which stands for `pgm_read_byte_far`.
-- An i8, i32 or i64 is its bit pattern. An address is a u32.
pub mod Encoding
pub mod Groups
pub mod Unsigned
pub mod Signed
use wait.Common.{ℕ, zero, suc, ◌+◌, ◌-◌, ◌*◌, ◌%◌, ◌^◌, bit_and, bit_or}
use wait.Common.{Bool, ◌&&◌, List, [], ◌∷◌, ltb, leb, ◌==◌, not, if◌then◌else◌}
use wait.Common.{Result, ok, panic, ◌>>=◌}

abbrev pub Flash : Type 0
Flash = ℕ → ℕ

-- `value |= ((byte & 0x7f) << shift)` on 64 bits.
unfoldable pub or_group : ℕ → ℕ → ℕ → ℕ
or_group value byte shift = bit_or value (bit_and byte 0x7f * 2 ^ shift % 2 ^ 64)

-- The `while` loop; the first number counts the addresses below `i_end` that are left.
unfoldable pub read_leb_unsigned_loop : Flash → ℕ → ℕ → ℕ → ℕ → ℕ → Result (ℕ × ℕ)
read_leb_unsigned_loop flash max_bits zero value shift ptr = ok (value, ptr)
read_leb_unsigned_loop flash max_bits (suc left) value shift ptr =
    let byte = flash ptr in
    let value' = or_group value byte shift in
    let rest = read_leb_unsigned_loop flash max_bits left value' (shift + 7) (ptr + 1) in
    if bit_and byte 0x80 == 0
    then ok (value', ptr + 1)
    else (if leb max_bits (shift + 7) then panic else rest)

unfoldable pub read_leb_unsigned : Flash → ℕ → ℕ → ℕ → Result (ℕ × ℕ)
read_leb_unsigned flash max_bits ptr end = read_leb_unsigned_loop flash max_bits (end - ptr) 0 0 ptr

-- `value |= (~extend << shift)` where bit 6 of the last byte is set and `shift < 64`.
unfoldable pub sign_extend : ℕ → ℕ → ℕ → ℕ
sign_extend value byte shift =
    if not (bit_and byte 0x40 == 0) && ltb shift 64
    then bit_or value ((2 ^ 64 - 1) * 2 ^ shift % 2 ^ 64)
    else value

unfoldable pub read_leb_signed_loop : Flash → ℕ → ℕ → ℕ → ℕ → ℕ → Result (ℕ × ℕ)
read_leb_signed_loop flash max_bits zero value shift ptr = ok (value, ptr)
read_leb_signed_loop flash max_bits (suc left) value shift ptr =
    let byte = flash ptr in
    let value' = or_group value byte shift in
    let rest = read_leb_signed_loop flash max_bits left value' (shift + 7) (ptr + 1) in
    if bit_and byte 0x80 == 0
    then ok (sign_extend value' byte (shift + 7), ptr + 1)
    else (if leb max_bits (shift + 7) then panic else rest)

unfoldable pub read_leb_signed : Flash → ℕ → ℕ → ℕ → Result (ℕ × ℕ)
read_leb_signed flash max_bits ptr end = read_leb_signed_loop flash max_bits (end - ptr) 0 0 ptr

unfoldable pub read_leb_u7 : Flash → ℕ → ℕ → Result (ℕ × ℕ)
read_leb_u7 flash ptr end = do
  (value, ptr') ← read_leb_unsigned flash 7 ptr end
  ok (value % 2 ^ 8, ptr')

unfoldable pub read_leb_u32 : Flash → ℕ → ℕ → Result (ℕ × ℕ)
read_leb_u32 flash ptr end = do
  (value, ptr') ← read_leb_unsigned flash 32 ptr end
  ok (value % 2 ^ 32, ptr')

unfoldable pub read_leb_i7 : Flash → ℕ → ℕ → Result (ℕ × ℕ)
read_leb_i7 flash ptr end = do
  (value, ptr') ← read_leb_signed flash 7 ptr end
  ok (value % 2 ^ 8, ptr')

unfoldable pub read_leb_i32 : Flash → ℕ → ℕ → Result (ℕ × ℕ)
read_leb_i32 flash ptr end = do
  (value, ptr') ← read_leb_signed flash 32 ptr end
  ok (value % 2 ^ 32, ptr')

unfoldable pub read_leb_i64 : Flash → ℕ → ℕ → Result (ℕ × ℕ)
read_leb_i64 flash ptr end = do (value, ptr') ← read_leb_signed flash 64 ptr end; ok (value, ptr')

unfoldable pub read_u8 : Flash → ℕ → ℕ → Result (ℕ × ℕ)
read_u8 flash ptr end = if ltb ptr end then ok (flash ptr, ptr + 1) else panic

-- `pgm_read_dword_far`: four bytes, lowest first.
abbrev pub read_dword : Flash → ℕ → ℕ
read_dword flash ptr =
    flash ptr + flash (ptr + 1) * 2 ^ 8 + flash (ptr + 2) * 2 ^ 16 + flash (ptr + 3) * 2 ^ 24

unfoldable pub read_u32 : Flash → ℕ → ℕ → Result (ℕ × ℕ)
read_u32 flash ptr end =
    let ptr' = (ptr + 4) % 2 ^ 32 in if leb ptr' end then ok (read_dword flash ptr, ptr') else panic

-- `memcpy_PF`: the bytes from an address on.
unfoldable pub bytes_at : Flash → ℕ → ℕ → List ℕ
bytes_at flash ptr zero = []
bytes_at flash ptr (suc n) = flash ptr ∷ bytes_at flash (ptr + 1) n

-- d_m3MaxSaneUtf8Length
abbrev pub max_sane_utf8_length : ℕ
max_sane_utf8_length = 2000

-- The text that is allocated and filled, without the zero byte behind it.
unfoldable pub read_utf8 : Flash → ℕ → ℕ → Result (List ℕ × ℕ)
read_utf8 flash ptr end = do
  (utf8_length, ptr') ← read_leb_u32 flash ptr end
  let utf8_end = (ptr' + utf8_length) % 2 ^ 32
  if leb utf8_length max_sane_utf8_length
      then (if leb utf8_end end then ok (bytes_at flash ptr' utf8_length, utf8_end) else panic)
      else panic

-- The type byte is the negated i8, with 0x40 for no type; the second part is the error result.
unfoldable pub normalize_type : ℕ → ℕ × ℕ
normalize_type convoluted =
    let type = (256 - convoluted) % 256 in
    if type == 0x40
    then (0, 0)
    else (if ltb type 1 then (type, 1) else (if ltb 4 type then (type, 1) else (type, 0)))

-- Zero for equal texts, one for others. A text is its bytes before the zero byte.
unfoldable pub mystrcmp : List ℕ → List ℕ → ℕ
mystrcmp [] [] = 0
mystrcmp [] (d ∷ t) = 1
mystrcmp (c ∷ s) [] = 1
mystrcmp (c ∷ s) (d ∷ t) = if c == d then mystrcmp s t else 1
