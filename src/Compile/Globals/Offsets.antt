-- ===== src/Compile/Globals/Offsets.antt =====
-- src/compile.c: what `wasm_global_init` stores, and where.
use wait.Common.{ℕ, zero, suc, ◌+◌, ◌-◌, ◌*◌, ◌%◌, ◌^◌, ◌<◌, ◌≡◌, refl, ap, ◌∙◌, arith}
use wait.Common.{
  List, [], ◌∷◌, ◌++◌, append-nil, append_assoc, All, length, ok, ◌==◌, ne→==, if◌then◌else◌,
}
use wait.Leb.{Flash, read_leb_i32}
use wait.Instructions.{wasm_type_i32}
use wait.Parse.{WasmGlobal}
use wait.Compile.Globals.{GlobalSpace, init_global, init_globals, wasm_global_init}

-- A global and the number that its expression stands for.
abbrev pub Valued : Type 0
Valued = WasmGlobal × ℕ

abbrev pub init_start : WasmGlobal → ℕ
init_start g = (g.init_expr + 1) % 2 ^ 32

abbrev pub init_end : WasmGlobal → ℕ
init_end g = (init_start g + g.init_expr_size + 2 ^ 32 - 1) % 2 ^ 32

-- The global is an i32, and its number reads as the value.
abbrev pub IsValued : Flash → Valued → Type 0
IsValued flash (g, v) =
    (g.type ≡ wasm_type_i32)
    × (p : ℕ) × (read_leb_i32 flash (init_start g) (init_end g) ≡ ok (v, p))

abbrev pub globals_of : List Valued → List WasmGlobal
globals_of [] = []
globals_of ((g, v) ∷ vs) = g ∷ globals_of vs

abbrev pub values_of : List Valued → List ℕ
values_of [] = []
values_of ((g, v) ∷ vs) = v ∷ values_of vs

-- So many offsets, four bytes apart.
abbrev pub offsets_from : ℕ → ℕ → List ℕ
offsets_from offset zero = []
offsets_from offset (suc n) = offset ∷ offsets_from (offset + 4) n

abbrev pub heap_base_of : ℕ → List Valued → ℕ
heap_base_of heap_base [] = heap_base
heap_base_of heap_base ((g, v) ∷ vs) = v

abbrev with_global : ℕ → ℕ → GlobalSpace → GlobalSpace
with_global heap_base v s = record {
  temp_space = s.temp_space ++ v ∷ [];
  offsets = s.offsets ++ s.offset ∷ [];
  offset = s.offset + 4;
  heap_base = heap_base;
}

init_global_lem :
    (flash : Flash) (i : ℕ) (g : WasmGlobal) (v : ℕ) (s : GlobalSpace)
    → IsValued flash (g, v)
    → s.offset + 4 < 2 ^ 16
    → init_global flash i g s ≡ ok (with_global (if i == 0 then v else s.heap_base) v s)
unfolding init_global
init_global_lem flash i g v s (t, p, e) fits =
    let small : (s.offset + 4) % 2 ^ 16 ≡ s.offset + 4 = omega arith in rw (t, e, small) refl

-- From the second global on the heap base stays.
init_globals_lem :
    (flash : Flash) (i : ℕ) (vs : List Valued) (s : GlobalSpace)
    → All (IsValued flash) vs
    → s.offset + 4 * length vs < 2 ^ 16
    → 0 < i
    → init_globals flash i (globals_of vs) s
      ≡ ok (record {
        temp_space = s.temp_space ++ values_of vs;
        offsets = s.offsets ++ offsets_from s.offset (length vs);
        offset = s.offset + 4 * length vs;
        heap_base = s.heap_base;
      })
unfolding init_globals
init_globals_lem flash i [] s h fits pos =
    rw (append-nil s.temp_space, append-nil s.offsets)
      (ap (λ o. ok (record s { offset = o })) (omega arith))
init_globals_lem flash i ((g, v) ∷ vs) s h fits pos =
    let other = ne→== i 0 (λ z. omega arith) in
    rw (init_global_lem flash i g v s h.0 (omega arith), other)
      (init_globals_lem flash (i + 1) vs (with_global s.heap_base v s) h.1 (omega arith)
          (omega arith)
        ∙ rw
            (
              append_assoc s.temp_space (v ∷ []) (values_of vs),
              append_assoc s.offsets (s.offset ∷ []) (offsets_from (s.offset + 4) (length vs)),
            )
            (ap
              (λ o. ok (record {
                temp_space = s.temp_space ++ v ∷ values_of vs;
                offsets = s.offsets ++ s.offset ∷ offsets_from (s.offset + 4) (length vs);
                offset = o;
                heap_base = s.heap_base;
              }))
              (omega arith)))

-- Where fewer than 16384 globals are all of type i32 and their expressions read as numbers behind
-- the first byte, `wasm_global_init` stores these numbers in order, gives each global the offset 4
-- times its number, and the space 4 bytes for each; the heap base is the first number, or stays where
-- there is no global.
pub wasm_global_init_lem :
    (flash : Flash) (heap_base : ℕ) (vs : List Valued)
    → All (IsValued flash) vs
    → 4 * length vs < 2 ^ 16
    → wasm_global_init flash heap_base (globals_of vs)
      ≡ ok (record {
        temp_space = values_of vs;
        offsets = offsets_from 0 (length vs);
        offset = 4 * length vs;
        heap_base = heap_base_of heap_base vs;
      })
unfolding wasm_global_init init_globals
wasm_global_init_lem flash heap_base [] h fits = refl
wasm_global_init_lem flash heap_base ((g, v) ∷ vs) h fits =
    let first : GlobalSpace = record {
      temp_space = v ∷ [];
      offsets = 0 ∷ [];
      offset = 4;
      heap_base = v;
    } in
    let empty : GlobalSpace = record {
      temp_space = [];
      offsets = [];
      offset = 0;
      heap_base = heap_base;
    } in
    rw (init_global_lem flash 0 g v empty h.0 (omega arith)) (
      init_globals_lem flash 1 vs first h.1 (omega arith) (omega arith)
      ∙ ap
          (λ o. ok (record {
            temp_space = v ∷ values_of vs;
            offsets = 0 ∷ offsets_from 4 (length vs);
            offset = o;
            heap_base = v;
          }))
          (omega arith))
