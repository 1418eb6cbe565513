-- ===== src/Parse/Storage/Expressions.antt =====
-- src/parse.c: `Parse_InitExpr`, and with it `ParseSection_Global` and `ParseSection_Data` on the
-- sections that the binary format has for lists of globals and of data segments.
use wait.Common.{ℕ, zero, suc, ◌+◌, ◌-◌, ◌*◌, ◌%◌, ◌^◌, ◌≤◌, ◌<◌, ◌≡◌, ◌≢◌, refl, arith}
use wait.Common.{List, [], ◌∷◌, ◌++◌, All, length, length-append, false}
use wait.Common.{Option, some, ok, lt→ltb, ne→==, eq→==}
use wait.Leb.{Flash}
use wait.Leb.Encoding.{Holds, leb_bytes}
use wait.Leb.Unsigned.{read_leb_u32-leb_bytes}
use wait.Parse.{WasmModule, WasmGlobal, DataSegment}
use wait.Parse.Reading.{Holds-append, encode_all, for_each-collects, map_from, read_leb_u7-byte}
use wait.Parse.Types.RoundTrip.{IsValueType, encode_type, read_type_lem}
use wait.Parse.Storage.{
  spilled, skip_expr, parse_init_expr, read_global, parse_section_global, read_segment,
  parse_section_data, wasm_global_size, data_segment_size,
}

-- An expression as the code takes it: what comes before the first byte 0x0b.
abbrev pub IsExpr : List ℕ → Type 0
IsExpr expr = All (λ b. b ≢ 0x0b) expr

abbrev pub end_expr : List ℕ → List ℕ
end_expr expr = expr ++ 0x0b ∷ []

skip_expr_lem :
    (flash : Flash) (expr : List ℕ) (left ptr : ℕ)
    → IsExpr expr
    → Holds flash ptr (end_expr expr)
    → length expr < left
    → skip_expr flash left ptr ≡ ptr + length expr
unfolding skip_expr
skip_expr_lem flash expr zero ptr h at room = absurd (omega arith)
skip_expr_lem flash [] (suc left) ptr h at room = rw (eq→== (flash ptr) 0x0b at.0) (omega arith)
skip_expr_lem flash (b ∷ expr) (suc left) ptr h at room =
    rw (ne→== (flash ptr) 0x0b (λ e. h.0 (cc)))
      (omega (arith, skip_expr_lem flash expr left (ptr + 1) h.1 at.1 (omega arith)))

-- Where bytes other than 0x0b and then the byte 0x0b stand in the program memory before the end,
-- `Parse_InitExpr` ends behind this first byte 0x0b, be it the end of the expression or a part of an
-- operand.
pub parse_init_expr_lem :
    (flash : Flash) (expr : List ℕ) (ptr end : ℕ)
    → IsExpr expr
    → Holds flash ptr (end_expr expr)
    → ptr + length (end_expr expr) ≤ end
    → parse_init_expr flash end ptr ≡ ptr + length (end_expr expr)
unfolding parse_init_expr
parse_init_expr_lem flash expr ptr end h at room =
    let l = length-append expr (0x0b ∷ []) in
    let last = (Holds-append flash expr (0x0b ∷ []) ptr at).1 in
    rw
      (
        skip_expr_lem flash expr (end - ptr) ptr h at (omega arith),
        eq→== (flash (ptr + length expr)) 0x0b last.0,
      )
      (omega arith)

pub record GlobalEntry : Type 0 where
  pub type : ℕ
  pub is_mutable : ℕ
  pub expr : List ℕ

abbrev pub encode_global : GlobalEntry → List ℕ
encode_global g = encode_type g.type ++ (g.is_mutable ∷ end_expr g.expr)

abbrev pub IsGlobal : GlobalEntry → Type 0
IsGlobal g = IsValueType g.type × (g.is_mutable < 128) × IsExpr g.expr × (0 < length g.expr)

-- The global that is read from an entry at an address.
abbrev pub global_at : ℕ → ℕ → GlobalEntry → WasmGlobal
global_at i ptr g = record {
  init_expr = ptr + 2;
  init_expr_size = length (end_expr g.expr);
  type = g.type;
  imported = false;
  is_mutable = g.is_mutable;
}

read_global_lem :
    (flash : Flash) (end i : ℕ) (g : GlobalEntry) (gs : List WasmGlobal) (ptr : ℕ)
    → IsGlobal g
    → Holds flash ptr (encode_global g)
    → ptr + length (encode_global g) ≤ end
    → read_global flash end i (gs, ptr)
      ≡ ok (gs ++ global_at i ptr g ∷ [], ptr + length (encode_global g))
unfolding read_global
read_global_lem flash end i g gs ptr (type, mutable, expr, some_byte) at room =
    let l = length-append g.expr (0x0b ∷ []) in
    let n : ℕ = length (end_expr g.expr) in
    rw
      (
        read_type_lem flash end ptr g.type type (at.0, tt) (omega arith),
        read_leb_u7-byte flash (ptr + 1) end g.is_mutable at.1.0 mutable (omega arith),
        parse_init_expr_lem flash g.expr (ptr + 1 + 1) end expr at.1.1 (omega arith),
        lt→ltb 1 (ptr + 1 + 1 + n - (ptr + 1 + 1)) (omega arith),
      )
      (ground arith)

-- The section of a list of globals.
abbrev pub encode_globals : List GlobalEntry → List ℕ
encode_globals gs = leb_bytes 4 (length gs) ++ encode_all encode_global gs

-- Where the encoding of a list of fewer than 3856 globals, whose expressions have a byte at least
-- and no byte 0x0b before their end, stands in the program memory, `ParseSection_Global` sets the
-- module's list of globals to them in this order, each with the address and the length of its
-- expression, and changes nothing else.
pub parse_section_global-encode_globals :
    (flash : Flash) (gs : List GlobalEntry) (start end : ℕ) (m : WasmModule)
    → length gs * wasm_global_size < 2 ^ 16
    → All IsGlobal gs
    → Holds flash start (encode_globals gs)
    → start + length (encode_globals gs) ≤ end
    → parse_section_global flash start end m
      ≡ ok (record m {
        global_list =
            map_from encode_global global_at 0 (start + length (leb_bytes 4 (length gs))) gs;
      })
unfolding parse_section_global
parse_section_global-encode_globals flash gs start end m few h at room =
    let count = leb_bytes 4 (length gs) in
    let (at1, at2) = Holds-append flash count (encode_all encode_global gs) start at in
    let l = length-append count (encode_all encode_global gs) in
    rw
      (
        read_leb_u32-leb_bytes flash (length gs) start end (omega arith) at1 (omega arith),
        lt→ltb (length gs * wasm_global_size) (2 ^ 16) few,
        for_each-collects encode_global global_at IsGlobal flash end (read_global flash end)
            (read_global_lem flash end) (length gs) gs (start + length count) refl h at2
            (omega arith),
      )
      refl

pub record SegmentEntry : Type 0 where
  pub region : ℕ
  pub expr : List ℕ
  pub contents : List ℕ

abbrev pub encode_segment : SegmentEntry → List ℕ
encode_segment d =
    leb_bytes 4 d.region ++ (end_expr d.expr ++ (leb_bytes 4 (length d.contents) ++ d.contents))

abbrev pub IsSegment : SegmentEntry → Type 0
IsSegment d =
    (d.region < 2 ^ 16)
    × IsExpr d.expr
    × (0 < length d.expr)
    × (length d.expr + 1 < 2 ^ 16)
    × (length d.contents < 2 ^ 16)

abbrev pub segment_at : ℕ → ℕ → SegmentEntry → DataSegment
segment_at i ptr d = record {
  init_expr = ptr + length (leb_bytes 4 d.region);
  bytes =
      ptr
      + length (leb_bytes 4 d.region)
      + length (end_expr d.expr)
      + length (leb_bytes 4 (length d.contents));
  init_expr_size = length (end_expr d.expr);
  memory_region = d.region;
  size = length d.contents;
  spill = 0;
}

-- The section of a list of data segments.
abbrev pub encode_segments : List SegmentEntry → List ℕ
encode_segments ds = leb_bytes 4 (length ds) ++ encode_all encode_segment ds

-- The two bytes behind the table: zero, unless there is no segment.
abbrev pub zeroed : Option ℕ → List SegmentEntry → Option ℕ
zeroed before [] = before
zeroed before (d ∷ ds) = some 0

spilled-map_from :
    (before : Option ℕ) (ds : List SegmentEntry) (i ptr : ℕ)
    → spilled before (map_from encode_segment segment_at i ptr ds) ≡ zeroed before ds
spilled-map_from before [] i ptr = refl
spilled-map_from before (d ∷ []) i ptr = refl
spilled-map_from before (d ∷ e ∷ ds) i ptr = spilled-map_from (some 0) (e ∷ ds) (i + 1) _

module _ (flash : Flash) (end : ℕ) (small : end < 2 ^ 32) where
  read_segment_lem :
      (i : ℕ) (d : SegmentEntry) (ds : List DataSegment) (ptr : ℕ)
      → IsSegment d
      → Holds flash ptr (encode_segment d)
      → ptr + length (encode_segment d) ≤ end
      → read_segment flash end i (ds, ptr)
        ≡ ok (ds ++ segment_at i ptr d ∷ [], ptr + length (encode_segment d))
  unfolding read_segment
  read_segment_lem i d ds ptr (region, expr, some_byte, short, fits) at room =
      let r = leb_bytes 4 d.region in
      let e = end_expr d.expr in
      let c = leb_bytes 4 (length d.contents) in
      let n : ℕ = length e in
      let (at1, at') = Holds-append flash r (e ++ (c ++ d.contents)) ptr at in
      let (at2, at'') = Holds-append flash e (c ++ d.contents) (ptr + length r) at' in
      let (at3, at4) = Holds-append flash c d.contents (ptr + length r + length e) at'' in
      let l1 = length-append r (e ++ (c ++ d.contents)) in
      let l2 = length-append e (c ++ d.contents) in
      let l3 = length-append c d.contents in
      let l4 = length-append d.expr (0x0b ∷ []) in
      rw
        (
          read_leb_u32-leb_bytes flash d.region ptr end (omega arith) at1 (omega arith),
          parse_init_expr_lem flash d.expr (ptr + length r) end expr at2 (omega arith),
          lt→ltb 1 ((ptr + length r + n - (ptr + length r)) % 2 ^ 16) (omega arith),
          read_leb_u32-leb_bytes flash (length d.contents) (ptr + length r + n) end (omega arith)
              at3 (omega arith),
        )
        (ground arith)

  -- Where the encoding of a list of fewer than 4682 data segments, of fewer than 2 ^ 16 bytes each
  -- and with expressions that have a byte at least and no byte 0x0b before their end, stands in the
  -- program memory, `ParseSection_Data` sets the module's list of segments to them in this order,
  -- each with the addresses and the lengths of its expression and of its contents, overwrites the two
  -- bytes behind the allocated table with zeros if there is a segment, and changes nothing else.
  pub parse_section_data-encode_segments :
      (ds : List SegmentEntry) (start : ℕ) (m : WasmModule)
      → length ds * data_segment_size < 2 ^ 16
      → All IsSegment ds
      → Holds flash start (encode_segments ds)
      → start + length (encode_segments ds) ≤ end
      → parse_section_data flash start end m
        ≡ ok (record m {
          data_segment_list =
              map_from encode_segment segment_at 0 (start + length (leb_bytes 4 (length ds))) ds;
          behind_segments = zeroed m.behind_segments ds;
        })
  unfolding parse_section_data
  parse_section_data-encode_segments ds start m few h at room =
      let count = leb_bytes 4 (length ds) in
      let (at1, at2) = Holds-append flash count (encode_all encode_segment ds) start at in
      let l = length-append count (encode_all encode_segment ds) in
      rw
        (
          read_leb_u32-leb_bytes flash (length ds) start end (omega arith) at1 (omega arith),
          lt→ltb (length ds * data_segment_size) (2 ^ 16) few,
          for_each-collects encode_segment segment_at IsSegment flash end (read_segment flash end)
              read_segment_lem (length ds) ds (start + length count) refl h at2 (omega arith),
          spilled-map_from m.behind_segments ds 0 (start + length count),
        )
        refl
