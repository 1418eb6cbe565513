-- ===== src/Parse/Code/Locals.antt =====
-- src/parse.c: the locals of a function in `ParseSection_Code`.
use wait.Common.{ℕ, ◌+◌, ◌*◌, ◌%◌, ◌^◌, ◌≤◌, ◌<◌, ◌≡◌, ap, ◌∙◌, arith}
use wait.Common.{List, [], ◌∷◌, ◌++◌, All, length, length-append}
use wait.Common.{ok, ◌==◌, if◌then◌else◌}
use wait.Leb.{Flash}
use wait.Leb.Encoding.{Holds, leb_bytes}
use wait.Leb.Unsigned.{read_leb_u32-leb_bytes}
use wait.Parse.{for_each}
use wait.Parse.Reading.{Holds-append, encode_all, for_each-reads, put_all, AllFit}
use wait.Parse.Types.RoundTrip.{IsValueType, encode_type, read_type_lem}
use wait.Parse.Code.{local_size, read_local_block}

-- A number of locals and their type.
abbrev pub LocalBlock : Type 0
LocalBlock = ℕ × ℕ

abbrev pub encode_block : LocalBlock → List ℕ
encode_block b = leb_bytes 4 b.0 ++ encode_type b.1

abbrev pub IsBlock : LocalBlock → Type 0
IsBlock b = (b.0 < 2 ^ 32) × IsValueType b.1

-- i64 (2) and f64 (4) take eight bytes, i32 (1) and f32 (3) four.
abbrev pub bytes_of : ℕ → ℕ
bytes_of type = if type % 2 == 0 then 8 else 4

-- How many locals, and how many bytes for them.
abbrev pub count_locals : List LocalBlock → ℕ
count_locals [] = 0
count_locals (b ∷ bs) = b.0 + count_locals bs

abbrev pub count_bytes : List LocalBlock → ℕ
count_bytes [] = 0
count_bytes (b ∷ bs) = bytes_of b.1 * b.0 + count_bytes bs

abbrev add_block : ℕ → ℕ → LocalBlock → ℕ × ℕ → ℕ × ℕ
add_block i ptr b (n, bytes) = ((n + b.0) % 2 ^ 32, (bytes + bytes_of b.1 * b.0) % 2 ^ 32)

local_size_lem : (t : ℕ) → IsValueType t → local_size t ≡ ok (bytes_of t)
unfolding local_size
local_size_lem t v = ground arith

read_local_block_lem :
    (flash : Flash) (end l : ℕ) (b : LocalBlock) (s : ℕ × ℕ) (ptr : ℕ)
    → IsBlock b
    → Holds flash ptr (encode_block b)
    → ptr + length (encode_block b) ≤ end
    → read_local_block flash end l (s, ptr)
      ≡ ok (add_block l ptr b s, ptr + length (encode_block b))
unfolding read_local_block
read_local_block_lem flash end l b (n, bytes) ptr (small, type) at room =
    let (at1, at2) = Holds-append flash (leb_bytes 4 b.0) (encode_type b.1) ptr at in
    let len = length-append (leb_bytes 4 b.0) (encode_type b.1) in
    rw
      (
        read_leb_u32-leb_bytes flash b.0 ptr end small at1 (omega arith),
        read_type_lem flash end (ptr + length (leb_bytes 4 b.0)) b.1 type at2 (omega arith),
        local_size_lem b.1 type,
      )
      (ap (λ p. ok (add_block l ptr b (n, bytes), p)) (omega arith))

AllFit-blocks :
    (i ptr : ℕ) (bs : List LocalBlock) (s : ℕ × ℕ)
    → All IsBlock bs
    → AllFit encode_block add_block (λ i b s. IsBlock b) i ptr bs s
AllFit-blocks i ptr [] s h = tt
AllFit-blocks i ptr (b ∷ bs) s h =
    (h.0, AllFit-blocks (i + 1) (ptr + length (encode_block b)) bs (add_block i ptr b s) h.1)

put_all-blocks :
    (i ptr : ℕ) (bs : List LocalBlock) (n bytes : ℕ)
    → put_all encode_block add_block (λ i b s. IsBlock b) i ptr bs (n % 2 ^ 32, bytes % 2 ^ 32)
      ≡ ((n + count_locals bs) % 2 ^ 32, (bytes + count_bytes bs) % 2 ^ 32)
put_all-blocks i ptr [] n bytes = ground arith
put_all-blocks i ptr (b ∷ bs) n bytes =
    ap
      (put_all encode_block add_block (λ i b s. IsBlock b) (i + 1) (ptr + length (encode_block b))
        bs)
      (ground arith)
    ∙ put_all-blocks (i + 1) (ptr + length (encode_block b)) bs (n + b.0)
        (bytes + bytes_of b.1 * b.0)
    ∙ ground arith

pub read_blocks :
    (flash : Flash) (end : ℕ) (bs : List LocalBlock) (ptr : ℕ)
    → All IsBlock bs
    → Holds flash ptr (encode_all encode_block bs)
    → ptr + length (encode_all encode_block bs) ≤ end
    → for_each (length bs) 0 (read_local_block flash end) ((0, 0), ptr)
      ≡ ok (
        (count_locals bs % 2 ^ 32, count_bytes bs % 2 ^ 32),
        ptr + length (encode_all encode_block bs),
      )
read_blocks flash end bs ptr h at room =
    for_each-reads encode_block add_block (λ i b s. IsBlock b) flash end
      (read_local_block flash end) (read_local_block_lem flash end) bs 0 (0, 0) ptr
      (AllFit-blocks 0 ptr bs (0, 0) h) at room
    ∙ ap (λ s. ok (s, ptr + length (encode_all encode_block bs)))
        (put_all-blocks 0 ptr bs 0 0 ∙ ground arith)
