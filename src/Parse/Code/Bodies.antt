-- ===== src/Parse/Code/Bodies.antt =====
-- src/parse.c: `ParseSection_Code` on the section that the binary format has for a list of bodies.
use wait.Common.{ℕ, ◌+◌, ◌%◌, ◌^◌, ◌≤◌, ◌<◌, ◌≡◌, refl, sym, ap, ◌∙◌, arith}
use wait.Common.{
  List, [], ◌∷◌, ◌++◌, append_assoc, All, length, length-append, get_elem?-middle, set-middle,
}
use wait.Common.{ok, le→leb, ne→==}
use mathlib.Core.Path.{ap₂}
use wait.Leb.{Flash}
use wait.Leb.Encoding.{Holds, leb_bytes, leb_bytes_some}
use wait.Leb.Unsigned.{read_leb_u32-leb_bytes}
use wait.Parse.{WasmModule, WasmFunction, for_each}
use wait.Parse.Reading.{Holds-append, encode_all}
use wait.Parse.Code.{with_code, set_code, read_body, parse_section_code}
use wait.Parse.Code.Locals.{
  LocalBlock, encode_block, IsBlock, count_locals, count_bytes, read_blocks,
}

-- The locals of a function and its instructions.
pub record Body : Type 0 where
  pub blocks : List LocalBlock
  pub code : List ℕ

abbrev pub encode_locals : List LocalBlock → List ℕ
encode_locals blocks = leb_bytes 4 (length blocks) ++ encode_all encode_block blocks

-- What the size of a body counts.
abbrev pub contents : Body → List ℕ
contents b = encode_locals b.blocks ++ b.code

abbrev pub encode_body : Body → List ℕ
encode_body b = leb_bytes 4 (length (contents b)) ++ contents b

abbrev pub IsBody : Body → Type 0
IsBody b = (length b.blocks < 2 ^ 32) × All IsBlock b.blocks

-- A function with the body that stands at an address: the instructions come behind the locals.
abbrev pub code_at : ℕ → Body → WasmFunction → WasmFunction
code_at ptr b =
    let start : ℕ = ptr + length (leb_bytes 4 (length (contents b))) in
    with_code (start + length (encode_locals b.blocks)) (start + length (contents b))
      (count_locals b.blocks % 2 ^ 32, count_bytes b.blocks % 2 ^ 32)

-- The functions from the first that is not imported on take the bodies in order.
abbrev pub install : ℕ → List Body → List WasmFunction → List WasmFunction
install ptr [] fs = fs
install ptr (b ∷ bs) [] = []
install ptr (b ∷ bs) (f ∷ fs) = code_at ptr b f ∷ install (ptr + length (encode_body b)) bs fs

-- The section of a list of bodies.
abbrev pub encode_bodies : List Body → List ℕ
encode_bodies bs = leb_bytes 4 (length bs) ++ encode_all encode_body bs

module _ (flash : Flash) (end : ℕ) (small : end < 2 ^ 32) (m : WasmModule) where
  abbrev with_functions : List WasmFunction → WasmModule
  with_functions fs = record m { function_list = fs }

  set_code_lem :
      (i ptr wasm_end : ℕ) (locals : ℕ × ℕ) (before : List WasmFunction) (f : WasmFunction)
      (fs : List WasmFunction)
      → length before ≡ i + m.import_num
      → set_code (i + m.import_num) ptr wasm_end locals (with_functions (before ++ f ∷ fs))
        ≡ ok (with_functions (before ++ with_code ptr wasm_end locals f ∷ fs))
  unfolding set_code
  set_code_lem i ptr wasm_end locals before f fs num =
      rw
        (
          get_elem?-middle before f fs (i + m.import_num) (sym num),
          set-middle before f fs (i + m.import_num) (with_code ptr wasm_end locals f) (sym num),
        )
        refl

  read_body_lem :
      (i : ℕ) (b : Body) (before : List WasmFunction) (f : WasmFunction) (fs : List WasmFunction)
      (ptr : ℕ)
      → length before ≡ i + m.import_num
      → IsBody b
      → Holds flash ptr (encode_body b)
      → ptr + length (encode_body b) ≤ end
      → read_body flash end i (with_functions (before ++ f ∷ fs), ptr)
        ≡ ok (with_functions (before ++ code_at ptr b f ∷ fs), ptr + length (encode_body b))
  unfolding read_body
  read_body_lem i b before f fs ptr num h at room =
      let s = leb_bytes 4 (length (contents b)) in
      let c = leb_bytes 4 (length b.blocks) in
      let ls = encode_all encode_block b.blocks in
      let size : ℕ = length (contents b) in
      let (at1, at') = Holds-append flash s (contents b) ptr at in
      let (at'', at3) = Holds-append flash (encode_locals b.blocks) b.code (ptr + length s) at' in
      let (at4, at5) = Holds-append flash c ls (ptr + length s) at'' in
      let l1 = length-append s (contents b) in
      let l2 = length-append (encode_locals b.blocks) b.code in
      let l3 = length-append c ls in
      let some_byte = leb_bytes_some 4 (length b.blocks) in
      let fits : (ptr + length s + size) % 2 ^ 32 ≡ ptr + length s + size = omega arith in
      rw
        (
          read_leb_u32-leb_bytes flash size ptr end (omega arith) at1 (omega arith),
          ne→== size 0 (λ z. omega arith),
          fits,
          le→leb (ptr + length s + size) end (omega arith),
          read_leb_u32-leb_bytes flash (length b.blocks) (ptr + length s) end h.0 at4 (omega arith),
          read_blocks flash end b.blocks (ptr + length s + length c) h.1 at5 (omega arith),
          set_code_lem i (ptr + length s + length c + length ls) (ptr + length s + size)
              (count_locals b.blocks % 2 ^ 32, count_bytes b.blocks % 2 ^ 32) before f fs num,
        )
        (ap₂
          (λ p q. ok (
            with_functions (
                before
                ++ with_code p (ptr + length s + size)
                    (count_locals b.blocks % 2 ^ 32, count_bytes b.blocks % 2 ^ 32) f
                  ∷ fs),
            q,
          ))
          (omega arith) (omega arith))

  read_bodies :
      (bs : List Body) (i : ℕ) (before fs : List WasmFunction) (ptr : ℕ)
      → length before ≡ i + m.import_num
      → length bs ≤ length fs
      → All IsBody bs
      → Holds flash ptr (encode_all encode_body bs)
      → ptr + length (encode_all encode_body bs) ≤ end
      → for_each (length bs) i (read_body flash end) (with_functions (before ++ fs), ptr)
        ≡ ok
            (with_functions (before ++ install ptr bs fs), ptr + length (encode_all encode_body bs))
  unfolding for_each
  read_bodies [] i before fs ptr num enough h at room =
      ap (λ p. ok (with_functions (before ++ fs), p)) (omega arith)
  read_bodies (b ∷ bs) i before [] ptr num enough h at room = absurd (omega arith)
  read_bodies (b ∷ bs) i before (f ∷ fs) ptr num enough h at room =
      let (at1, at2) = Holds-append flash (encode_body b) (encode_all encode_body bs) ptr at in
      let l = length-append (encode_body b) (encode_all encode_body bs) in
      let new : WasmFunction = code_at ptr b f in
      let next : ℕ = ptr + length (encode_body b) in
      let l' = length-append before (new ∷ []) in
      rw
        (
          read_body_lem i b before f fs ptr num h.0 at1 (omega arith),
          ← append_assoc before (new ∷ []) fs,
        )
        (read_bodies bs (i + 1) (before ++ new ∷ []) fs next (omega arith) (omega arith) h.1 at2
            (omega arith)
          ∙ ap₂ (λ gs p. ok (with_functions gs, p))
              (append_assoc before (new ∷ []) (install next bs fs)) (omega arith))

  -- Where the module has its imported functions first and one function at least for each body, and
  -- the encoding of the bodies stands in the program memory, `ParseSection_Code` gives the bodies to
  -- the functions behind the imported ones, in this order, and changes nothing else: each has the
  -- addresses of its first instruction and behind its last, and, modulo 2 ^ 16, the number of its
  -- locals and their bytes, 8 for each of type i64 or f64 and 4 for each other.
  pub parse_section_code-encode_bodies :
      (bs : List Body) (imported fs : List WasmFunction) (start : ℕ)
      → m.function_list ≡ imported ++ fs
      → length imported ≡ m.import_num
      → length bs ≤ length fs
      → length bs < 2 ^ 32
      → All IsBody bs
      → Holds flash start (encode_bodies bs)
      → start + length (encode_bodies bs) ≤ end
      → parse_section_code flash start end m
        ≡ ok (with_functions (imported ++ install (start + length (leb_bytes 4 (length bs))) bs fs))
  unfolding parse_section_code
  parse_section_code-encode_bodies bs imported fs start functions num enough few h at room =
      let count = leb_bytes 4 (length bs) in
      let (at1, at2) = Holds-append flash count (encode_all encode_body bs) start at in
      let l = length-append count (encode_all encode_body bs) in
      let same : m ≡ with_functions (imported ++ fs) = ap with_functions functions in
      rw
        (
          read_leb_u32-leb_bytes flash (length bs) start end few at1 (omega arith),
          ap (λ r. for_each (length bs) 0 (read_body flash end) (r, start + length count)) same,
          read_bodies bs 0 imported fs (start + length count) (omega arith) enough h at2
              (omega arith),
        )
        refl
