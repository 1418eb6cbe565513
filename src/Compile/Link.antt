-- ===== src/Compile/Link.antt =====
-- src/compile.c: the imported functions are found by name in the tables of src/user_import.c.
pub mod Named
use wait.Common.{ℕ, zero, suc, ◌+◌, Bool, List, [], ◌∷◌, ◌==◌, if◌then◌else◌, Option, none, some}
use wait.Common.{Result, or_panic}
use wait.Leb.{mystrcmp}

-- A text ends at its first zero byte.
unfoldable pub c_text : List ℕ → List ℕ
c_text [] = []
c_text (zero ∷ cs) = []
c_text (suc c ∷ cs) = suc c ∷ c_text cs

-- The loop over the table does not stop at a match: the last one counts.
unfoldable pub find_import : List ℕ → List (List ℕ × ℕ) → Option ℕ → Option ℕ
find_import name [] found = found
find_import name ((import_name, address) ∷ rest) found =
    find_import name rest (if mystrcmp name import_name == 0 then some address else found)

-- The address of an imported function; a name that is not in the table stops the compiler.
unfoldable pub link_import : List (List ℕ × ℕ) → List ℕ → Result ℕ
unfolding find_import c_text
link_import imports name = or_panic (find_import (c_text name) imports none)

-- imports_name: "printInt", "rtc_startBenchmarkMeasurement_Native", "rtc_stopBenchmarkMeasurement",
-- "malloc", "memset", "memcpy" and "printStr".
abbrev pub imports_name : List (List ℕ)
imports_name =
    (112 ∷ 114 ∷ 105 ∷ 110 ∷ 116 ∷ 73 ∷ 110 ∷ 116 ∷ [])
    ∷ (114 ∷ 116 ∷ 99 ∷ 95 ∷ 115 ∷ 116 ∷ 97 ∷ 114 ∷ 116 ∷ 66 ∷ 101 ∷ 110 ∷ 99 ∷ 104 ∷ 109 ∷ 97 ∷ 114
        ∷ 107 ∷ 77 ∷ 101 ∷ 97 ∷ 115 ∷ 117 ∷ 114 ∷ 101 ∷ 109 ∷ 101 ∷ 110 ∷ 116 ∷ 95 ∷ 78 ∷ 97 ∷ 116
        ∷ 105 ∷ 118 ∷ 101 ∷ [])
    ∷ (114 ∷ 116 ∷ 99 ∷ 95 ∷ 115 ∷ 116 ∷ 111 ∷ 112 ∷ 66 ∷ 101 ∷ 110 ∷ 99 ∷ 104 ∷ 109 ∷ 97 ∷ 114
        ∷ 107 ∷ 77 ∷ 101 ∷ 97 ∷ 115 ∷ 117 ∷ 114 ∷ 101 ∷ 109 ∷ 101 ∷ 110 ∷ 116 ∷ [])
    ∷ (109 ∷ 97 ∷ 108 ∷ 108 ∷ 111 ∷ 99 ∷ [])
    ∷ (109 ∷ 101 ∷ 109 ∷ 115 ∷ 101 ∷ 116 ∷ [])
    ∷ (109 ∷ 101 ∷ 109 ∷ 99 ∷ 112 ∷ 121 ∷ [])
    ∷ (112 ∷ 114 ∷ 105 ∷ 110 ∷ 116 ∷ 83 ∷ 116 ∷ 114 ∷ [])
    ∷ []

-- The table with the addresses of the functions in the same order.
abbrev pub imports_table : List ℕ → List (List ℕ) → List (List ℕ × ℕ)
imports_table [] names = []
imports_table (a ∷ as_) [] = []
imports_table (a ∷ as_) (n ∷ names) = (n, a) ∷ imports_table as_ names
