-- ===== src/Tests/Readers.antt =====
-- Runs of the readers of src/utils.c and of the encoders of src/asm.c.
use wait.Common.{ℕ, ◌≡◌, refl, List, [], ◌∷◌, get_or, arith}
use wait.Common.{ok, panic}
use wait.Leb.{Flash, read_leb_unsigned, read_leb_u32, read_leb_i32}
use wait.Leb.Encoding.{IsLeb, leb_bytes}
use wait.Leb.Unsigned.{read_leb_unsigned_overlong, read_leb_unsigned_cut}
use wait.Leb.Unsigned.{read_leb_u32-IsLeb, read_leb_u32-leb_bytes}
use wait.Leb.Signed.{read_leb_i32_negative}

-- 624485 in three bytes, then -2 in one, then five bytes that leave a number open.
abbrev code : List ℕ
code = 0xe5 ∷ 0x8e ∷ 0x26 ∷ 0x7e ∷ 0x80 ∷ 0x80 ∷ 0x80 ∷ 0x80 ∷ 0x80 ∷ 0x00 ∷ []

abbrev flash : Flash
flash p = get_or code p 0

abbrev three_bytes : List ℕ
three_bytes = 0xe5 ∷ 0x8e ∷ 0x26 ∷ []

three_bytes-IsLeb : IsLeb three_bytes
three_bytes-IsLeb = (omega arith, omega arith, (omega arith, omega arith, omega arith))

reads_u32 : read_leb_u32 flash 0 10 ≡ ok (624485, 3)
reads_u32 =
    read_leb_u32-IsLeb flash three_bytes 0 10 three_bytes-IsLeb (refl, (refl, (refl, tt)))
      (omega arith) (omega arith)

read_leb_u32-leb_bytes_example : read_leb_u32 flash 0 10 ≡ ok (624485, 3)
unfolding leb_bytes
read_leb_u32-leb_bytes_example =
    read_leb_u32-leb_bytes flash 624485 0 10 (omega arith) (refl, (refl, (refl, tt))) (omega arith)

abbrev open_bytes : List ℕ
open_bytes = 0x80 ∷ 0x80 ∷ 0x80 ∷ 0x80 ∷ 0x80 ∷ []

read_leb_unsigned_overlong_example : read_leb_unsigned flash 32 4 10 ≡ panic
read_leb_unsigned_overlong_example =
    read_leb_unsigned_overlong flash 32 open_bytes 4 10 (omega arith) (omega arith)
      (
        omega arith,
        omega arith,
        (
          omega arith,
          omega arith,
          (omega arith, omega arith, (omega arith, omega arith, (omega arith, omega arith, tt))),
        ),
      )
      (refl, (refl, (refl, (refl, (refl, tt))))) (omega arith) (omega arith)

read_leb_unsigned_cut_example : read_leb_unsigned flash 32 0 2 ≡ ok (1893, 2)
read_leb_unsigned_cut_example =
    read_leb_unsigned_cut flash 32 (0xe5 ∷ 0x8e ∷ []) 0 (omega arith)
      (omega arith, omega arith, (omega arith, omega arith, tt)) (refl, (refl, tt)) (omega arith)

read_leb_i32_negative_example : read_leb_i32 flash 3 10 ≡ ok (4294967294, 4)
read_leb_i32_negative_example =
    read_leb_i32_negative flash (0x7e ∷ []) 3 10 2 (omega arith) refl (refl, tt) (omega arith)
      (omega arith) refl (omega arith) (omega arith)
