-- ===== src/Parse/Load/Sections.antt =====
-- src/parse.c: `wasm_load_module` on a binary whose sections are in order.
use wait.Common.{ℕ, zero, suc, ◌+◌, ◌*◌, ◌%◌, ◌^◌, ◌≤◌, ◌<◌, ◌≡◌, refl, ap, ◌∙◌, arith}
use wait.Common.{List, [], ◌∷◌, ◌++◌, length, length-append, true, ◌||◌, ltb, ◌==◌, if◌then◌else◌}
use wait.Common.{Result, ok, panic, trap, ◌>>=◌, lt→ltb, le→ltb, le→leb}
use wait.Leb.{Flash, read_u32}
use wait.Leb.Encoding.{Holds, leb_bytes}
use wait.Leb.Unsigned.{read_leb_u32-leb_bytes}
use wait.Parse.{WasmModule, Fresh}
use wait.Parse.Reading.{Holds-append, encode_all, read_leb_u7-byte}
use wait.Parse.Load.{parse_module_section, load_section, load_loop, load_fuel, wasm_load_module}

-- A section's number and its contents.
abbrev pub Section : Type 0
Section = ℕ × List ℕ

abbrev pub encode_section : Section → List ℕ
encode_section s = s.0 ∷ leb_bytes 4 (length s.1) ++ s.1

-- The bytes "\0asm" and the version 1.
abbrev version : List ℕ
version = 0x01 ∷ 0x00 ∷ 0x00 ∷ 0x00 ∷ []

abbrev pub header : List ℕ
header = 0x00 ∷ 0x61 ∷ 0x73 ∷ 0x6d ∷ version

-- The number of the last section that is not custom.
abbrev pub after : ℕ → ℕ → ℕ
after previous section = if section == 0 then previous else section

-- Custom sections stand anywhere, the others by rising numbers.
abbrev pub AreOrdered : ℕ → List Section → Type 0
AreOrdered previous [] = Unit
AreOrdered previous (s ∷ ss) =
    (s.0 < 128)
    × ((ltb previous s.0 || s.0 == 0) ≡ true)
    × (length s.1 < 2 ^ 32)
    × AreOrdered (after previous s.0) ss

read_u32_lem :
    (flash : Flash) (a b c d ptr end : ℕ)
    → Holds flash ptr (a ∷ b ∷ c ∷ d ∷ [])
    → ptr + 4 ≤ end
    → end < 2 ^ 32
    → read_u32 flash ptr end ≡ ok (a + b * 2 ^ 8 + c * 2 ^ 16 + d * 2 ^ 24, ptr + 4)
unfolding read_u32
read_u32_lem flash a b c d ptr end at room small =
    let e : (ptr + 4) % 2 ^ 32 ≡ ptr + 4 = omega arith in
    let two : ptr + 2 ≡ ptr + 1 + 1 = omega arith in
    let three : ptr + 3 ≡ ptr + 1 + 1 + 1 = omega arith in
    rw
      (
        e,
        le→leb (ptr + 4) end room,
        at.0,
        at.1.0,
        ap flash two ∙ at.1.1.0,
        ap flash three ∙ at.1.1.1.0,
      )
      refl

module _ (fresh : Fresh) (flash : Flash) where
  -- The sections one after the other, the first at an address: each is parsed in its place.
  pub parse_sections : ℕ → List Section → WasmModule → Result WasmModule
  parse_sections ptr [] m = ok m
  parse_sections ptr (s ∷ ss) m = do
    m' ←
        parse_module_section fresh flash s.0 (ptr + 1 + length (leb_bytes 4 (length s.1)))
          (length s.1) m
    parse_sections (ptr + length (encode_section s)) ss m'

  >>=-ok :
      {A B C : Type 0} (r : Result A) (f : A → B) (g : B → Result C) (h : A → Result C)
      → ((a : A) → g (f a) ≡ h a)
      → ((r >>= λ a. ok (f a)) >>= g) ≡ (r >>= h)
  >>=-ok panic f g h e = refl
  >>=-ok trap f g h e = refl
  >>=-ok (ok a) f g h e = e a

  load_section-ordered :
      (end : ℕ) (s : Section) (previous ptr : ℕ) (m : WasmModule)
      → end < 2 ^ 32
      → s.0 < 128
      → (ltb previous s.0 || s.0 == 0) ≡ true
      → length s.1 < 2 ^ 32
      → Holds flash ptr (encode_section s)
      → ptr + length (encode_section s) ≤ end
      → load_section fresh flash end ((m, previous), ptr) ≡ (
          parse_module_section fresh flash s.0
            (ptr + 1 + length (leb_bytes 4 (length s.1)))
            (length s.1)
            m
          >>= λ m'. ok ((m', after previous s.0), ptr + length (encode_section s)))
  unfolding load_section
  load_section-ordered end s previous ptr m small number order short at room =
      let n = leb_bytes 4 (length s.1) in
      let (at1, at2) = Holds-append flash n s.1 (ptr + 1) at.1 in
      let l = length-append n s.1 in
      let next : (ptr + 1 + length n + length s.1) % 2 ^ 32 ≡ ptr + length (encode_section s) =
        omega arith in
      rw
        (
          read_leb_u7-byte flash ptr end s.0 at.0 number (omega arith),
          order,
          read_leb_u32-leb_bytes flash (length s.1) (ptr + 1) end short at1 (omega arith),
        )
        (ap
          (λ p. parse_module_section fresh flash s.0 (ptr + 1 + length n) (length s.1) m >>= λ m'.
            ok ((m', after previous s.0), p))
          next)

  load_loop-ordered :
      (end fuel : ℕ) (ss : List Section) (previous ptr : ℕ) (m : WasmModule)
      → end < 2 ^ 32
      → length ss < fuel
      → AreOrdered previous ss
      → Holds flash ptr (encode_all encode_section ss)
      → ptr + length (encode_all encode_section ss) ≡ end
      → load_loop fuel fresh flash end ((m, previous), ptr) ≡ parse_sections ptr ss m
  unfolding load_loop parse_sections
  load_loop-ordered end zero ss previous ptr m small enough o at e = absurd (omega arith)
  load_loop-ordered end (suc fuel) [] previous ptr m small enough o at e =
      rw (le→ltb ptr end (omega arith)) refl
  load_loop-ordered end (suc fuel) (s ∷ ss) previous ptr m small enough o at e =
      let l = length-append (encode_section s) (encode_all encode_section ss) in
      let (at1, at2) =
        Holds-append flash (encode_section s) (encode_all encode_section ss) ptr at in
      rw
        (
          lt→ltb ptr end (omega arith),
          load_section-ordered end s previous ptr m small o.0 o.1 o.2 at1 (omega arith),
        )
        (>>=-ok
          (parse_module_section fresh flash s.0 (ptr + 1 + length (leb_bytes 4 (length s.1)))
            (length s.1) m)
          (λ m'. ((m', after previous s.0), ptr + length (encode_section s)))
          (load_loop fuel fresh flash end)
          (λ m'. parse_sections (ptr + length (encode_section s)) ss m')
          (λ m'.
            load_loop-ordered end fuel ss (after previous s.0) (ptr + length (encode_section s)) m'
              small (omega arith) o.3 at2 (omega arith)))

  length-le : (ss : List Section) → length ss ≤ length (encode_all encode_section ss)
  length-le [] = omega arith
  length-le (s ∷ ss) =
      omega (arith, length-append (encode_section s) (encode_all encode_section ss), length-le ss)

  -- Where the header and the encoding of a list of sections, whose numbers are below 128 and rise but
  -- for those of custom sections, are the binary, and the binary ends below 2 ^ 32,
  -- `wasm_load_module` does what the parsers of the sections do one after the other, each on the
  -- contents of its section: it gives the module that they make of the allocated one, or stops where
  -- one of them stops.
  pub wasm_load_module-parse_sections :
      (ss : List Section) (ptr : ℕ)
      → AreOrdered 0 ss
      → Holds flash ptr (header ++ encode_all encode_section ss)
      → ptr + length (header ++ encode_all encode_section ss) < 2 ^ 32
      → wasm_load_module fresh flash ptr (length (header ++ encode_all encode_section ss))
        ≡ parse_sections (ptr + 8) ss fresh.module_
  unfolding wasm_load_module
  wasm_load_module-parse_sections ss ptr o at small =
      let all = header ++ encode_all encode_section ss in
      let end : ℕ = ptr + length all in
      let (at1, at2) = Holds-append flash header (encode_all encode_section ss) ptr at in
      let l = length-append header (encode_all encode_section ss) in
      let fits : (ptr + length all) % 2 ^ 32 ≡ ptr + length all = omega arith in
      let (low, high) = Holds-append flash (0x00 ∷ 0x61 ∷ 0x73 ∷ 0x6d ∷ []) version ptr at1 in
      let next : ptr + 4 + 4 ≡ ptr + 8 = omega arith in
      rw
        (
          fits,
          read_u32_lem flash 0x00 0x61 0x73 0x6d ptr end low (omega arith) small,
          read_u32_lem flash 1 0 0 0 (ptr + 4) end high (omega arith) small,
          next,
        )
        (load_loop-ordered end load_fuel ss 0 (ptr + 8) fresh.module_ small
          (omega (arith, length-le ss)) o at2 (omega arith))
