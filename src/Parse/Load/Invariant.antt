-- ===== src/Parse/Load/Invariant.antt =====
-- The invariant of a module that src/parse.c builds, and what each change of the module does to it.
use wait.Common.{ℕ, zero, suc, ◌+◌, ◌-◌, ◌^◌, ◌≤◌, ◌<◌, ◌≡◌, refl, sym, ap, subst, arith}
use wait.Common.{List, [], ◌∷◌, ◌++◌, All, length, length-append, get_elem?, set, some, Option}
use wait.Common.{Result, ok, >>=-eq-ok, or_panic, or_panic-eq-ok, or_trap, or_trap-eq-ok}
use wait.Instructions.{FuncType}
use wait.Parse.{WasmModule, WasmFunction, ImportInfo, Fresh, allocate}
use wait.Parse.Functions.{function_name, new_function, add_function}
use wait.Parse.Code.{with_code, set_code}

-- The type of a function stands in the list of types.
abbrev pub HasType : List FuncType → WasmFunction → Type 0
HasType types f = (i : ℕ) × (get_elem? types i ≡ some f.func.func_type)

pub record IsValid (m : WasmModule) : Type 0 where
  pub imports : m.import_num ≤ length m.function_list
  pub few : length m.function_list < 2 ^ 15
  pub typed : All (HasType m.func_type_list) m.function_list

module _ (types : List FuncType) where
  All-last :
      (fs : List WasmFunction) (f : WasmFunction)
      → All (HasType types) fs
      → HasType types f
      → All (HasType types) (fs ++ f ∷ [])
  All-last [] f h k = (k, tt)
  All-last (g ∷ fs) f h k = (h.0, All-last fs f h.1 k)

  All-set :
      (fs : List WasmFunction) (i : ℕ) (f : WasmFunction)
      → All (HasType types) fs
      → HasType types f
      → All (HasType types) (set fs i f)
  All-set [] i f h k = tt
  All-set (g ∷ fs) zero f h k = (k, h.1)
  All-set (g ∷ fs) (suc i) f h k = (h.0, All-set fs i f h.1 k)

  HasType-get_elem? :
      (fs : List WasmFunction) (i : ℕ) {f : WasmFunction}
      → All (HasType types) fs
      → get_elem? fs i ≡ some f
      → HasType types f
  HasType-get_elem? [] i h e = cc
  HasType-get_elem? (g ∷ fs) zero h e = let (j, t) = h.0 in (j, cc)
  HasType-get_elem? (g ∷ fs) (suc i) h e = HasType-get_elem? fs i h.1 e

length-set : (fs : List WasmFunction) (i : ℕ) (f : WasmFunction) → length (set fs i f) ≡ length fs
length-set [] i f = refl
length-set (g ∷ fs) zero f = refl
length-set (g ∷ fs) (suc i) f = ap (λ (n : ℕ). suc n) (length-set fs i f)

-- One function more, with a type of the list; nothing else changes.
abbrev Adds : WasmModule → WasmModule → Type 0
Adds m m' =
    (f : WasmFunction) × (m' ≡ record m { function_list = m.function_list ++ f ∷ [] })
    × HasType m.func_type_list f
    × (length m.function_list + 1 < 2 ^ 15)

pub add_function-Adds :
    (fresh : Fresh) (type_index : ℕ) (info : Option ImportInfo) (m m' : WasmModule)
    → add_function fresh type_index info m ≡ ok m'
    → Adds m m'
unfolding add_function
add_function-Adds fresh type_index info m m' e =
    let old = length m.function_list in
    let (u, e0, e1) = >>=-eq-ok (allocate (old + 1) 2) _ e in
    let (t, e2, e3) = >>=-eq-ok (or_panic (get_elem? m.func_type_list type_index)) _ e1 in
    let (name, e4, e5) = >>=-eq-ok (function_name info (old + 1 - m.import_num)) _ e3 in
    (
      new_function (fresh.function old) t info name,
      cc,
      (type_index, or_panic-eq-ok (get_elem? m.func_type_list type_index) e2),
      ground arith,
    )

pub Adds-IsValid :
    (m m' : WasmModule)
    → IsValid m
    → Adds m m'
    → IsValid m' × (m'.import_num < length m'.function_list)
Adds-IsValid m m' v (f, e, t, few) =
    let l = length-append m.function_list (f ∷ []) in
    let i = v.imports in
    subst (λ n. IsValid n × (n.import_num < length n.function_list)) (sym e)
      (
        record {
          imports = omega arith;
          few = omega arith;
          typed = All-last m.func_type_list m.function_list f v.typed t;
        },
        omega arith,
      )

-- What a part of the parser keeps, where it does not stop.
abbrev pub Keeps : (WasmModule × ℕ → Result (WasmModule × ℕ)) → Type 0
Keeps body = (s s' : WasmModule × ℕ) → body s ≡ ok s' → IsValid s.0 → IsValid s'.0

pub set_code-IsValid :
    (index ptr wasm_end : ℕ) (locals : ℕ × ℕ) (m m' : WasmModule)
    → set_code index ptr wasm_end locals m ≡ ok m'
    → IsValid m
    → IsValid m'
unfolding set_code
set_code-IsValid index ptr wasm_end locals m m' e v =
    let (f, e1, e2) = >>=-eq-ok (or_trap (get_elem? m.function_list index)) _ e in
    let found = or_trap-eq-ok (get_elem? m.function_list index) e1 in
    let g : WasmFunction = with_code ptr wasm_end locals f in
    let l = length-set m.function_list index g in
    let r : IsValid (record m { function_list = set m.function_list index g }) = record {
      imports = rw l v.imports;
      few = rw l v.few;
      typed =
          All-set m.func_type_list m.function_list index g v.typed
            (HasType-get_elem? m.func_type_list m.function_list index v.typed found);
    } in
    subst IsValid (cc e2) r

pub same_module :
    (m : WasmModule) (p : ℕ) (s : WasmModule × ℕ)
    → ◌≡◌ {A = Result (WasmModule × ℕ)} (ok (m, p)) (ok s)
    → m ≡ s.0
same_module m p s e = cc

-- What a section keeps, where its parser does not stop.
abbrev pub SectionKeeps : (WasmModule → Result WasmModule) → Type 0
SectionKeeps parse = (m m' : WasmModule) → parse m ≡ ok m' → IsValid m → IsValid m'
