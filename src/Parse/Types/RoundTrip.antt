-- ===== src/Parse/Types/RoundTrip.antt =====
-- src/parse.c: `ParseSection_Type` on the section that the binary format has for a list of types.
use wait.Common.{ℕ, zero, suc, ◌+◌, ◌-◌, ◌*◌, ◌^◌, ◌≤◌, ◌<◌, ◌≡◌, refl, ap, ◌∙◌, arith}
use wait.Common.{List, [], ◌∷◌, ◌++◌, All, length, length-append, ok}
use wait.Common.{lt→ltb, ne→==}
use wait.Leb.{Flash, normalize_type}
use wait.Leb.Encoding.{Holds, leb_bytes}
use wait.Leb.Unsigned.{read_leb_u32-leb_bytes}
use wait.Leb.Signed.{read_leb_i7-byte}
use wait.Instructions.{FuncType}
use wait.Parse.{WasmModule, Fresh, for_each}
use wait.Parse.Reading.{Holds-append, encode_all, for_each-collects, map_from, read_leb_u7-byte}
use wait.Parse.Types.{
  read_type, read_argument, read_return_type, read_func_type, parse_section_type, func_type_size,
}

-- i32 is 0x7f, i64 0x7e, f32 0x7d and f64 0x7c.
abbrev pub IsValueType : ℕ → Type 0
IsValueType t = (0 < t) × (t ≤ 4)

abbrev pub encode_type : ℕ → List ℕ
encode_type t = (128 - t) ∷ []

-- No result is the type 0.
abbrev pub encode_result : ℕ → List ℕ
encode_result zero = 0 ∷ []
encode_result (suc t) = 1 ∷ encode_type (suc t)

abbrev pub encode_func_type : FuncType → List ℕ
encode_func_type f =
    0x60 ∷ leb_bytes 4 f.args_num
    ++ (encode_all encode_type f.args_type_list ++ encode_result f.return_type)

abbrev pub IsFuncType : FuncType → Type 0
IsFuncType f =
    (f.args_num ≡ length f.args_type_list)
    × (f.args_num + func_type_size < 2 ^ 16)
    × All IsValueType f.args_type_list
    × (f.return_type ≤ 4)

-- What is read back: without a result, the byte of the allocation.
abbrev pub result_or : ℕ → ℕ → ℕ
result_or unset zero = unset
result_or unset (suc t) = suc t

abbrev pub as_read : Fresh → ℕ → FuncType → FuncType
as_read fresh i f = record f { return_type = result_or (fresh.return_type i) f.return_type }

abbrev pub all_as_read : Fresh → ℕ → List FuncType → List FuncType
all_as_read fresh i [] = []
all_as_read fresh i (f ∷ fs) = as_read fresh i f ∷ all_as_read fresh (i + 1) fs

abbrev read_at : Fresh → ℕ → ℕ → FuncType → FuncType
read_at fresh i ptr f = as_read fresh i f

map_from-read_at :
    (fresh : Fresh) (i ptr : ℕ) (fs : List FuncType)
    → map_from encode_func_type (read_at fresh) i ptr fs ≡ all_as_read fresh i fs
map_from-read_at fresh i ptr [] = refl
map_from-read_at fresh i ptr (f ∷ fs) =
    ap (λ r. as_read fresh i f ∷ r)
      (map_from-read_at fresh (i + 1) (ptr + length (encode_func_type f)) fs)

pub read_type_lem :
    (flash : Flash) (end ptr t : ℕ)
    → IsValueType t
    → Holds flash ptr (encode_type t)
    → ptr < end
    → read_type flash end ptr ≡ ok (t, ptr + 1)
unfolding normalize_type
read_type_lem flash end ptr t v at room =
    rw (read_leb_i7-byte flash ptr end (128 - t) at.0 (omega arith) room) (ground arith)

same : ℕ → ℕ → ℕ → ℕ
same i ptr t = t

map_from-same : (i ptr : ℕ) (ts : List ℕ) → map_from encode_type same i ptr ts ≡ ts
unfolding same
map_from-same i ptr [] = refl
map_from-same i ptr (t ∷ ts) = ap (λ r. t ∷ r) (map_from-same (i + 1) (ptr + 1) ts)

read_argument_lem :
    (flash : Flash) (end i t : ℕ) (ts : List ℕ) (ptr : ℕ)
    → IsValueType t
    → Holds flash ptr (encode_type t)
    → ptr + 1 ≤ end
    → read_argument flash end i (ts, ptr) ≡ ok (ts ++ same i ptr t ∷ [], ptr + 1)
unfolding read_argument same
read_argument_lem flash end i t ts ptr v at room =
    rw (read_type_lem flash end ptr t v at (omega arith)) refl

read_arguments :
    (flash : Flash) (end n : ℕ) (ts : List ℕ) (ptr : ℕ)
    → n ≡ length ts
    → All IsValueType ts
    → Holds flash ptr (encode_all encode_type ts)
    → ptr + length (encode_all encode_type ts) ≤ end
    → for_each n 0 (read_argument flash end) ([], ptr)
      ≡ ok (ts, ptr + length (encode_all encode_type ts))
read_arguments flash end n ts ptr num v at room =
    for_each-collects encode_type same IsValueType flash end (read_argument flash end)
      (read_argument_lem flash end) n ts ptr num v at room
    ∙ ap (λ r. ok (r, ptr + length (encode_all encode_type ts))) (map_from-same 0 ptr ts)

read_return_type_lem :
    (flash : Flash) (end unset ptr t : ℕ)
    → t ≤ 4
    → Holds flash ptr (encode_result t)
    → ptr + length (encode_result t) ≤ end
    → read_return_type flash end unset ptr ≡ ok (result_or unset t, ptr + length (encode_result t))
unfolding read_return_type
read_return_type_lem flash end unset ptr zero small at room =
    rw (read_leb_u7-byte flash ptr end 0 at.0 (omega arith) (omega arith)) refl
read_return_type_lem flash end unset ptr (suc t) small at room =
    rw
      (
        read_leb_u7-byte flash ptr end 1 at.0 (omega arith) (omega arith),
        read_type_lem flash end (ptr + 1) (suc t) (omega arith) at.1 (omega arith),
      )
      (ap (λ p. ok (suc t, p)) (omega arith))

read_func_type_lem :
    (fresh : Fresh) (flash : Flash) (end i : ℕ) (f : FuncType) (fs : List FuncType) (ptr : ℕ)
    → IsFuncType f
    → Holds flash ptr (encode_func_type f)
    → ptr + length (encode_func_type f) ≤ end
    → read_func_type fresh flash end i (fs, ptr)
      ≡ ok (fs ++ as_read fresh i f ∷ [], ptr + length (encode_func_type f))
unfolding read_func_type
read_func_type_lem fresh flash end i f fs ptr (num, fits, args, result) at room =
    let count = leb_bytes 4 f.args_num in
    let types = encode_all encode_type f.args_type_list in
    let last = encode_result f.return_type in
    let (at1, at') = Holds-append flash count (types ++ last) (ptr + 1) at.1 in
    let (at2, at3) = Holds-append flash types last (ptr + 1 + length count) at' in
    let l = length-append count (types ++ last) in
    let l' = length-append types last in
    rw
      (
        read_leb_i7-byte flash ptr end 0x60 at.0 (omega arith) (omega arith),
        read_leb_u32-leb_bytes flash f.args_num (ptr + 1) end (omega arith) at1 (omega arith),
        lt→ltb ((func_type_size + f.args_num) * 1) (2 ^ 16) (omega arith),
        read_arguments flash end f.args_num f.args_type_list (ptr + 1 + length count) num args at2
            (omega arith),
        read_return_type_lem flash end (fresh.return_type i) (ptr + 1 + length count + length types)
            f.return_type result at3 (omega arith),
      )
      (ap (λ p. ok (fs ++ as_read fresh i f ∷ [], p)) (omega arith))

-- The section of a list of function types.
abbrev pub encode_types : List FuncType → List ℕ
encode_types types = leb_bytes 4 (length types) ++ encode_all encode_func_type types

-- Where the encoding of a list of 1 to 32767 function types stands in the program memory,
-- `ParseSection_Type` sets the module's list of types to these types, but for the result type of a
-- type without a result, which is what the allocated memory holds, and changes nothing else.
pub parse_section_type-encode_types :
    (fresh : Fresh) (flash : Flash) (types : List FuncType) (start end : ℕ) (m : WasmModule)
    → 0 < length types
    → length types * 2 < 2 ^ 16
    → All IsFuncType types
    → Holds flash start (encode_types types)
    → start + length (encode_types types) ≤ end
    → parse_section_type fresh flash start end m
      ≡ ok (record m { func_type_list = all_as_read fresh 0 types })
unfolding parse_section_type
parse_section_type-encode_types fresh flash types start end m some_types few valid at room =
    let count = leb_bytes 4 (length types) in
    let (at1, at2) = Holds-append flash count (encode_all encode_func_type types) start at in
    let l = length-append count (encode_all encode_func_type types) in
    rw
      (
        read_leb_u32-leb_bytes flash (length types) start end (omega arith) at1 (omega arith),
        ne→== (length types) 0 (λ z. omega arith),
        lt→ltb (length types * 2) (2 ^ 16) few,
        for_each-collects encode_func_type (read_at fresh) IsFuncType flash end
            (read_func_type fresh flash end) (read_func_type_lem fresh flash end) (length types)
            types (start + length count) refl valid at2 (omega arith),
        map_from-read_at fresh 0 (start + length count) types,
      )
      refl
