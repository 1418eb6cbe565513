-- ===== src/Parse/Load/Valid.antt =====
-- src/parse.c: `wasm_load_module` gives a valid module, whatever the bytes are. It rests on the
-- order of the sections: no list of types replaces the one that the functions' types come from.
use wait.Common.{ℕ, zero, suc, ◌+◌, ◌%◌, ◌^◌, ◌≤◌, ◌<◌, ◌≡◌, refl, sym, subst, arith}
use wait.Common.{
  List, [], ◌∷◌, length, true, ◌||◌, ◌&&◌, Option, none, some, get_elem?, leb, or_trap,
  or_trap-eq-ok,
}
use wait.Common.{
  Result, ok, >>=-eq-ok, Bool-cases, inl, inr, ltb, ◌==◌, ne→==, check, if◌then◌else◌,
}
use wait.Leb.{Flash, read_leb_u7, read_leb_u32, read_u32}
use wait.Parse.{WasmModule, Fresh, allocate, for_each}
use wait.Parse.Types.{parse_section_type, read_func_type}
use wait.Parse.Load.{
  parse_module_section, enter_section, load_section, load_loop, wasm_load_module, load_fuel, Parser,
  s_parsers, run_parser,
}
use wait.Parse.Functions.{parse_section_import, parse_section_function}
use wait.Parse.Storage.{parse_section_memory, parse_section_global, parse_section_data}
use wait.Parse.Code.{parse_section_code}
use wait.Parse.Load.Kept.{
  section_import-Keeps, section_function-Keeps, section_code-Keeps, section_memory-Keeps,
  section_global-Keeps, section_data-Keeps,
}
use wait.Parse.Load.Invariant.{IsValid}

-- Before the second section there is no function.
pub record IsLoaded (previous : ℕ) (m : WasmModule) : Type 0 where
  pub valid : IsValid m
  pub early : previous < 2 → m.function_list ≡ []

cleared-IsLoaded : (m : WasmModule) → m.function_list ≡ [] → m.import_num ≡ 0 → IsLoaded 0 m
cleared-IsLoaded m cleared no_import = record {
  valid = record { imports = omega arith; few = rw cleared (omega arith); typed = rw cleared tt };
  early = λ h. cleared;
}

module _ (fresh : Fresh) (flash : Flash) where
  section_type-IsLoaded :
      (start end : ℕ) (m m' : WasmModule)
      → parse_section_type fresh flash start end m ≡ ok m'
      → IsValid m
      → m.function_list ≡ []
      → IsLoaded 1 m'
  unfolding parse_section_type
  section_type-IsLoaded start end m m' e v none_yet =
      let ((n, p), e1, e2) = >>=-eq-ok (read_leb_u32 flash start end) _ e in
      elim (Bool-cases (n == 0)) [
        | inl z ↦
            let e3 : ok m ≡ ok m' = rw z at e2 in
            subst (IsLoaded 1) (cc) (record { valid = v; early = λ h. none_yet })
        | inr z ↦
            let (u, e3, e4) = >>=-eq-ok (allocate n 2) _ (rw z at e2) in
            let ((types, q), e5, e6) =
              >>=-eq-ok (for_each n 0 (read_func_type fresh flash end) ([], p)) _ e4 in
            let r : IsLoaded 1 (record m { func_type_list = types }) = record {
              valid = record { imports = v.imports; few = v.few; typed = rw none_yet tt };
              early = λ h. none_yet;
            } in
            subst (IsLoaded 1) (cc e6) r
      ]

  -- What an entry of the table does for the section with its number.
  abbrev Serves : ℕ → Option Parser → Type 0
  Serves section parser =
      (start end previous : ℕ) (m m' : WasmModule)
      → run_parser parser start end m ≡ ok m'
      → previous < section
      → IsLoaded previous m
      → IsLoaded section m'

  AllServe : ℕ → List (Option Parser) → Type 0
  AllServe i [] = Unit
  AllServe i (p ∷ ps) = Serves i p × AllServe (i + 1) ps

  Serves-get_elem? :
      (i : ℕ) (ps : List (Option Parser)) (j k : ℕ) (p : Option Parser)
      → k ≡ i + j
      → AllServe i ps
      → get_elem? ps j ≡ some p
      → Serves k p
  unfolding AllServe
  Serves-get_elem? i [] j k p e h at = cc
  Serves-get_elem? i (q ∷ ps) zero k p e h at =
      let same : k ≡ i = omega arith in
      let this : q ≡ p = cc in subst (λ n. Serves n p) (sym same) (subst (Serves i) this h.0)
  Serves-get_elem? i (q ∷ ps) (suc j) k p e h at =
      Serves-get_elem? (i + 1) ps j k p (omega arith) h.1 at

  -- `NULL`.
  none-Serves : (section : ℕ) → Serves section none
  none-Serves section start end previous m m' e h l =
      subst (IsLoaded section) (cc) (record { valid = l.valid; early = λ k. l.early (omega arith) })

  late-Serves :
      (section : ℕ) (parser : Parser)
      → 2 ≤ section
      → ((start end : ℕ) (m m' : WasmModule) → parser start end m ≡ ok m' → IsValid m → IsValid m')
      → Serves section (some parser)
  late-Serves section parser two keeps start end previous m m' e h l = record {
    valid = keeps start end m m' e l.valid;
    early = λ k. absurd (omega arith);
  }

  type-Serves : Serves 1 (some (parse_section_type fresh flash))
  type-Serves start end previous m m' e h l =
      section_type-IsLoaded start end m m' e l.valid (l.early (omega arith))

  s_parsers-AllServe : AllServe 0 (s_parsers fresh flash)
  unfolding AllServe
  s_parsers-AllServe = (
    none-Serves 0,
    (
      type-Serves,
      (
        late-Serves 2 (parse_section_import fresh flash) (omega arith)
            (λ start end. section_import-Keeps fresh flash end start),
        (
          late-Serves 3 (parse_section_function fresh flash) (omega arith)
              (λ start end. section_function-Keeps fresh flash end start),
          (
            none-Serves 4,
            (
              late-Serves 5 (parse_section_memory flash) (omega arith)
                  (λ start end. section_memory-Keeps fresh flash end start),
              (
                late-Serves 6 (parse_section_global flash) (omega arith)
                    (λ start end. section_global-Keeps fresh flash end start),
                (
                  none-Serves 7,
                  (
                    none-Serves 8,
                    (
                      none-Serves 9,
                      (
                        late-Serves 10 (parse_section_code flash) (omega arith)
                            (λ start end. section_code-Keeps fresh flash end start),
                        (
                          late-Serves 11 (parse_section_data flash) (omega arith)
                              (λ start end. section_data-Keeps fresh flash end start),
                          tt,
                        ),
                      ),
                    ),
                  ),
                ),
              ),
            ),
          ),
        ),
      ),
    ),
  )

  section-IsLoaded :
      (section start num_bytes previous : ℕ) (m m' : WasmModule)
      → parse_module_section fresh flash section start num_bytes m ≡ ok m'
      → previous < section
      → IsLoaded previous m
      → IsLoaded section m'
  unfolding parse_module_section
  section-IsLoaded section start num_bytes previous m m' e h l =
      let end : ℕ = (start + num_bytes) % 2 ^ 32 in
      elim (Bool-cases (leb section 12)) [
        | inl t ↦
            let (p, e1, e2) =
              >>=-eq-ok (or_trap (get_elem? (s_parsers fresh flash) section)) _ (rw t at e) in
            Serves-get_elem? 0 (s_parsers fresh flash) section section p (omega arith)
              s_parsers-AllServe (or_trap-eq-ok (get_elem? (s_parsers fresh flash) section) e1)
              start end previous m m' e2 h l
        | inr t ↦ none-Serves section start end previous m m' (rw t at e) h l
      ]

  -- A custom section changes nothing.
  section-zero :
      (start num_bytes : ℕ) (m : WasmModule)
      → parse_module_section fresh flash 0 start num_bytes m ≡ ok m
  unfolding parse_module_section
  section-zero start num_bytes m = refl

  same_state :
      {s : WasmModule × ℕ} (p : ℕ) {s' : (WasmModule × ℕ) × ℕ}
      → ◌≡◌ {A = Result ((WasmModule × ℕ) × ℕ)} (ok (s, p)) (ok s')
      → IsLoaded s.1 s.0
      → IsLoaded s'.0.1 s'.0.0
  same_state {s} p {s'} e l = subst (λ (t : WasmModule × ℕ). IsLoaded t.1 t.0) (cc) l

  in_order-IsLoaded :
      (section start num_bytes previous : ℕ) (m m' : WasmModule)
      → parse_module_section fresh flash section start num_bytes m ≡ ok m'
      → (ltb previous section || section == 0) ≡ true
      → IsLoaded previous m
      → IsLoaded (if section == 0 then previous else section) m'
  in_order-IsLoaded zero start num_bytes previous m m' e order l =
      let e' = section-zero start num_bytes m in
      let same : m ≡ m' = cc in subst (IsLoaded previous) same l
  in_order-IsLoaded (suc k) start num_bytes previous m m' e order l =
      let later : previous < suc k = ground arith in
      rw (ne→== (suc k) 0 (λ z. omega arith))
        (section-IsLoaded (suc k) start num_bytes previous m m' e later l)

  enter_section-IsLoaded :
      (end section pos previous : ℕ) (m : WasmModule) (s' : (WasmModule × ℕ) × ℕ)
      → enter_section fresh flash end section ((m, previous), pos) ≡ ok s'
      → (ltb previous section || section == 0) ≡ true
      → IsLoaded previous m
      → IsLoaded s'.0.1 s'.0.0
  unfolding enter_section
  enter_section-IsLoaded end section pos previous m s' e order l =
      let ((n, p), e1, e2) = >>=-eq-ok (read_leb_u32 flash pos end) _ e in
      let (m', e3, e4) = >>=-eq-ok (parse_module_section fresh flash section p n m) _ e2 in
      same_state ((p + n) % 2 ^ 32) e4 (in_order-IsLoaded section p n previous m m' e3 order l)

  load_section-IsLoaded :
      (end pos previous : ℕ) (m : WasmModule) (s' : (WasmModule × ℕ) × ℕ)
      → load_section fresh flash end ((m, previous), pos) ≡ ok s'
      → IsLoaded previous m
      → IsLoaded s'.0.1 s'.0.0
  unfolding load_section
  load_section-IsLoaded end pos previous m s' e l =
      let ((section, p), e1, e2) = >>=-eq-ok (read_leb_u7 flash pos end) _ e in
      elim (Bool-cases (ltb previous section || section == 0)) [
        | inl t ↦ enter_section-IsLoaded end section p previous m s' (rw t at e2) t l
        | inr t ↦ same_state p (rw t at e2) l
      ]

  load_loop-IsLoaded :
      (fuel end pos : ℕ) (s : WasmModule × ℕ) (m' : WasmModule)
      → load_loop fuel fresh flash end (s, pos) ≡ ok m'
      → IsLoaded s.1 s.0
      → IsValid m'
  unfolding load_loop
  load_loop-IsLoaded zero end pos s m' e l = cc
  load_loop-IsLoaded (suc fuel) end pos s m' e l = elim (Bool-cases (ltb pos end)) [
    | inl t ↦
        let ((s', pos'), e1, e2) =
          >>=-eq-ok (load_section fresh flash end (s, pos)) _ (rw t at e) in
        load_loop-IsLoaded fuel end pos' s' m' e2
          (load_section-IsLoaded end pos s.1 s.0 (s', pos') e1 l)
    | inr t ↦
        let e' : ok s.0 ≡ ok m' = rw t at e in
        let same : s.0 ≡ m' = cc in subst IsValid same l.valid
  ]

  -- Where the memory that is allocated for the module is zero where the numbers of its functions
  -- stand, every module that `wasm_load_module` gives has at most as many imported functions as
  -- functions, fewer than 2 ^ 15 functions, and for each function a type of its list of types,
  -- whatever the bytes are.
  pub wasm_load_module-IsValid :
      (ptr length : ℕ) (m : WasmModule)
      → fresh.module_.function_list ≡ []
      → fresh.module_.import_num ≡ 0
      → wasm_load_module fresh flash ptr length ≡ ok m
      → IsValid m
  unfolding wasm_load_module
  wasm_load_module-IsValid ptr length m cleared no_import e =
      let end : ℕ = (ptr + length) % 2 ^ 32 in
      let ((magic, p), e1, e2) = >>=-eq-ok (read_u32 flash ptr end) _ e in
      let ((version, q), e3, e4) = >>=-eq-ok (read_u32 flash p end) _ e2 in
      let (u, e5, e6) = >>=-eq-ok (check (magic == 0x6d736100 && version == 1)) _ e4 in
      load_loop-IsLoaded load_fuel end q (fresh.module_, 0) m e6
        (cleared-IsLoaded fresh.module_ cleared no_import)
