-- ===== src/Parse/Load/Kept.antt =====
-- src/parse.c: what each section keeps of the list of functions, whatever the bytes are.
use wait.Common.{ℕ, ◌+◌, ◌%◌, ◌^◌, ◌≡◌, subst, arith}
use wait.Common.{[], some, none}
use wait.Common.{true, leb, ok, >>=-eq-ok, Bool-cases, inl, inr, ltb, ◌==◌, check}
use wait.Leb.{Flash, read_leb_u7, read_leb_u32, read_u8, read_utf8}
use wait.Parse.{WasmModule, ImportInfo, Fresh, allocate, for_each}
use wait.Parse.Reading.{for_each_inv}
use wait.Parse.Types.{read_type}
use wait.Parse.Functions.{
  add_function, import_function, import_memory, import_global, read_import_kind, read_import,
  parse_section_import, read_function, parse_section_function,
}
use wait.Parse.Storage.{
  spilled, parse_type_memory, parse_section_memory, parse_section_global, parse_section_data,
  read_global, read_segment, wasm_global_size, data_segment_size,
}
use wait.Parse.Code.{set_code, read_local_block, read_code, read_body, parse_section_code}
use wait.Parse.Load.Invariant.{
  IsValid, add_function-Adds, Adds-IsValid, Keeps, set_code-IsValid, same_module, SectionKeeps,
}

module _ (fresh : Fresh) (flash : Flash) (end : ℕ) where
  import_function-Keeps : (info : ImportInfo) → Keeps (import_function fresh flash end info)
  unfolding import_function
  import_function-Keeps info (m, ptr) (m', p') e v =
      let ((index, p), e1, e2) = >>=-eq-ok (read_leb_u32 flash ptr end) _ e in
      let (n, e3, e4) = >>=-eq-ok (add_function fresh index (some info) m) _ e2 in
      let (w, l) = Adds-IsValid m n v (add_function-Adds fresh index (some info) m n e3) in
      let r : IsValid (record n { import_num = n.import_num + 1 }) = record {
        imports = omega arith;
        few = w.few;
        typed = w.typed;
      } in
      subst IsValid (cc) r

  import_memory-Keeps : Keeps (import_memory flash end)
  unfolding import_memory
  import_memory-Keeps (m, ptr) (m', p') e v =
      let ((memory, p), e1, e2) = >>=-eq-ok (parse_type_memory flash end ptr) _ e in
      let r : IsValid (record m { memory = memory; memory_imported = true }) = record {
        imports = v.imports;
        few = v.few;
        typed = v.typed;
      } in
      subst IsValid (cc) r

  import_global-Keeps : Keeps (import_global flash end)
  unfolding import_global
  import_global-Keeps (m, ptr) s' e v =
      let ((type, p), e1, e2) = >>=-eq-ok (read_type flash end ptr) _ e in
      let ((is_mutable, q), e3, e4) = >>=-eq-ok (read_leb_u7 flash p end) _ e2 in cc

  read_import_kind-Keeps :
      (info : ImportInfo) (kind : ℕ) → Keeps (read_import_kind fresh flash end info kind)
  unfolding read_import_kind
  read_import_kind-Keeps info kind s s' e v = elim (Bool-cases (kind == 0)) [
    | inl a ↦ import_function-Keeps info s s' (rw a at e) v
    | inr a ↦ elim (Bool-cases (kind == 1)) [
      | inl b ↦ let e' : ok s ≡ ok s' = rw (a, b) at e in subst IsValid (cc) v
      | inr b ↦ elim (Bool-cases (kind == 2)) [
        | inl c ↦ import_memory-Keeps s s' (rw (a, b, c) at e) v
        | inr c ↦ elim (Bool-cases (kind == 3)) [
          | inl d ↦ import_global-Keeps s s' (rw (a, b, c, d) at e) v
          | inr d ↦ cc (rw (a, b, c, d) at e)
        ]
      ]
    ]
  ]

  read_function-Keeps : (i : ℕ) → Keeps (read_function fresh flash end i)
  unfolding read_function
  read_function-Keeps i (m, ptr) (m', p') e v =
      let ((index, p), e1, e2) = >>=-eq-ok (read_leb_u32 flash ptr end) _ e in
      let (n, e3, e4) = >>=-eq-ok (add_function fresh index none m) _ e2 in
      let (w, l) = Adds-IsValid m n v (add_function-Adds fresh index none m n e3) in
      subst IsValid (cc) w

  read_import-Keeps : (i : ℕ) → Keeps (read_import fresh flash end i)
  unfolding read_import
  read_import-Keeps i (m, ptr) s' e v =
      let ((module_utf8, p), e1, e2) = >>=-eq-ok (read_utf8 flash ptr end) _ e in
      let ((field_utf8, q), e3, e4) = >>=-eq-ok (read_utf8 flash p end) _ e2 in
      let ((kind, r), e5, e6) = >>=-eq-ok (read_u8 flash q end) _ e4 in
      read_import_kind-Keeps (record { module_utf8 = module_utf8; field_utf8 = field_utf8 }) kind
        (m, r) s' e6 v

  read_code-Keeps : (i size : ℕ) → Keeps (read_code flash end i size)
  unfolding read_code
  read_code-Keeps i size (m, ptr) s' e v =
      let wasm_end : ℕ = (ptr + size) % 2 ^ 32 in
      let (u, e0, e1) = >>=-eq-ok (check (leb wasm_end end)) _ e in
      let ((blocks, p), e2, e3) = >>=-eq-ok (read_leb_u32 flash ptr end) _ e1 in
      let ((locals, q), e4, e5) =
        >>=-eq-ok (for_each blocks 0 (read_local_block flash end) ((0, 0), p)) _ e3 in
      let (n, e6, e7) = >>=-eq-ok (set_code (i + m.import_num) q wasm_end locals m) _ e5 in
      subst IsValid (same_module n wasm_end s' e7)
        (set_code-IsValid (i + m.import_num) q wasm_end locals m n e6 v)

  read_body-Keeps : (i : ℕ) → Keeps (read_body flash end i)
  unfolding read_body
  read_body-Keeps i (m, ptr) s' e v =
      let ((size, p), e1, e2) = >>=-eq-ok (read_leb_u32 flash ptr end) _ e in
      elim (Bool-cases (size == 0)) [
        | inl z ↦ let e3 : ok (m, p) ≡ ok s' = rw z at e2 in subst IsValid (cc) v
        | inr z ↦ read_code-Keeps i size (m, p) s' (rw z at e2) v
      ]

  module _ (start : ℕ) where
    pub section_import-Keeps : SectionKeeps (parse_section_import fresh flash start end)
    unfolding parse_section_import
    section_import-Keeps m m' e v =
        let ((n, p), e1, e2) = >>=-eq-ok (read_leb_u32 flash start end) _ e in
        let ((m2, q), e3, e4) =
          >>=-eq-ok (for_each n 0 (read_import fresh flash end) (m, p)) _ e2 in
        let w =
          for_each_inv (λ (s : WasmModule × ℕ). IsValid s.0) (read_import fresh flash end)
            (λ i s s' v e. read_import-Keeps i s s' e v) n 0 (m, p) (m2, q) e3 v in
        elim (Bool-cases (ltb n (2 ^ 16))) [
          | inl t ↦ let e5 : ok m2 ≡ ok m' = rw t at e4 in subst IsValid (cc) w
          | inr t ↦ cc (rw t at e4)
        ]

    pub section_function-Keeps : SectionKeeps (parse_section_function fresh flash start end)
    unfolding parse_section_function
    section_function-Keeps m m' e v =
        let ((n, p), e1, e2) = >>=-eq-ok (read_leb_u32 flash start end) _ e in
        let ((m2, q), e3, e4) =
          >>=-eq-ok (for_each n 0 (read_function fresh flash end) (m, p)) _ e2 in
        let w =
          for_each_inv (λ (s : WasmModule × ℕ). IsValid s.0) (read_function fresh flash end)
            (λ i s s' v e. read_function-Keeps i s s' e v) n 0 (m, p) (m2, q) e3 v in
        subst IsValid (cc e4) w

    pub section_code-Keeps : SectionKeeps (parse_section_code flash start end)
    unfolding parse_section_code
    section_code-Keeps m m' e v =
        let ((n, p), e1, e2) = >>=-eq-ok (read_leb_u32 flash start end) _ e in
        let ((m2, q), e3, e4) = >>=-eq-ok (for_each n 0 (read_body flash end) (m, p)) _ e2 in
        let w =
          for_each_inv (λ (s : WasmModule × ℕ). IsValid s.0) (read_body flash end)
            (λ i s s' v e. read_body-Keeps i s s' e v) n 0 (m, p) (m2, q) e3 v in
        subst IsValid (cc e4) w

    pub section_memory-Keeps : SectionKeeps (parse_section_memory flash start end)
    unfolding parse_section_memory
    section_memory-Keeps m m' e v =
        let ((n, p), e1, e2) = >>=-eq-ok (read_leb_u32 flash start end) _ e in
        let (u, e3, e4) = >>=-eq-ok (check (n == 1)) _ e2 in
        let ((memory, q), e5, e6) = >>=-eq-ok (parse_type_memory flash end p) _ e4 in
        let r : IsValid (record m { memory = memory }) = record {
          imports = v.imports;
          few = v.few;
          typed = v.typed;
        } in
        subst IsValid (cc e6) r

    pub section_global-Keeps : SectionKeeps (parse_section_global flash start end)
    unfolding parse_section_global
    section_global-Keeps m m' e v =
        let ((n, p), e1, e2) = >>=-eq-ok (read_leb_u32 flash start end) _ e in
        let (u, e3, e4) = >>=-eq-ok (allocate n wasm_global_size) _ e2 in
        let ((globals, q), e5, e6) =
          >>=-eq-ok (for_each n 0 (read_global flash end) ([], p)) _ e4 in
        let r : IsValid (record m { global_list = globals }) = record {
          imports = v.imports;
          few = v.few;
          typed = v.typed;
        } in
        subst IsValid (cc e6) r

    pub section_data-Keeps : SectionKeeps (parse_section_data flash start end)
    unfolding parse_section_data
    section_data-Keeps m m' e v =
        let ((n, p), e1, e2) = >>=-eq-ok (read_leb_u32 flash start end) _ e in
        let (u, e3, e4) = >>=-eq-ok (allocate n data_segment_size) _ e2 in
        let ((segments, q), e5, e6) =
          >>=-eq-ok (for_each n 0 (read_segment flash end) ([], p)) _ e4 in
        let r : IsValid (record m {
          data_segment_list = segments;
          behind_segments = spilled m.behind_segments segments;
        }) =
          record { imports = v.imports; few = v.few; typed = v.typed } in
        subst IsValid (cc e6) r
