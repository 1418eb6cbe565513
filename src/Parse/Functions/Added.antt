-- ===== src/Parse/Functions/Added.antt =====
-- src/parse.c: `ParseSection_Function` on the section that the binary format has for a list of
-- functions, with the names that `Module_AddFunction` gives them.
use wait.Common.{ℕ, zero, suc, ◌+◌, ◌-◌, ◌/◌, ◌%◌, ◌^◌, ◌<◌, ◌≡◌}
use wait.Common.{List, [], ◌∷◌, ◌++◌, length, get_elem?, ltb, if◌then◌else◌}
use wait.Common.{some, none}
use wait.Leb.Encoding.{leb_bytes}
use wait.Instructions.{FuncType}
use wait.Parse.{WasmModule, WasmFunction, Fresh}
use wait.Parse.Reading.{encode_all}
use wait.Parse.Functions.{new_function}

-- The decimal digits of a number, with at most so many digits before the last.
abbrev pub digits : ℕ → ℕ → List ℕ
digits zero n = (48 + n % 10) ∷ []
digits (suc k) n = if ltb n 10 then (48 + n) ∷ [] else digits k (n / 10) ++ (48 + n % 10) ∷ []

-- A function of the section: the index of its type, and the type that stands there.
abbrev pub Declaration : Type 0
Declaration = ℕ × FuncType

abbrev pub encode_index : Declaration → List ℕ
encode_index d = leb_bytes 4 d.0

abbrev pub Declares : WasmModule → Declaration → Type 0
Declares m d = (get_elem? m.func_type_list d.0 ≡ some d.1) × (d.0 < 2 ^ 32)

-- The function with the number `n`, which is named by its number among those of the module.
abbrev pub declared : Fresh → ℕ → ℕ → Declaration → WasmFunction
declared fresh import_num n d =
    new_function (fresh.function n) d.1 none (digits 2 (n + 1 - import_num))

-- One after the other, from the number `n` on.
abbrev pub all_declared : Fresh → ℕ → ℕ → List Declaration → List WasmFunction
all_declared fresh import_num n [] = []
all_declared fresh import_num n (d ∷ ds) =
    declared fresh import_num n d ∷ all_declared fresh import_num (n + 1) ds

module _ (fresh : Fresh) where
  abbrev put_declared : ℕ → ℕ → Declaration → WasmModule → WasmModule
  put_declared i ptr d m = record m {
    function_list = m.function_list ++ declared fresh m.import_num (length m.function_list) d ∷ [];
  }

  abbrev HasRoom : ℕ → Declaration → WasmModule → Type 0
  HasRoom i d m =
      Declares m d
      × (length m.function_list + 1 < m.import_num + 1000)
      × (length m.function_list + 1 < 2 ^ 15)

-- The section of the functions of a module.
abbrev pub encode_declarations : List Declaration → List ℕ
encode_declarations ds = leb_bytes 4 (length ds) ++ encode_all encode_index ds
