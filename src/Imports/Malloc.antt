-- ===== src/Imports/Malloc.antt =====
-- src/user_import.c: what `import_malloc` gives over many calls.
use wait.Common.{ℕ, ◌+◌, ◌%◌, ◌^◌, ◌≤◌, ◌<◌, ◌≡◌, refl, List, [], ◌∷◌, arith}
use wait.Imports.{import_malloc}

-- Calls with these sizes, one after the other: the blocks, and the record at the end.
abbrev pub mallocs : List ℕ → ℕ → List (ℕ × ℕ) × ℕ
mallocs [] malloc_record = ([], malloc_record)
mallocs (size ∷ sizes) malloc_record =
    let (block, next) = import_malloc size malloc_record in
    let (blocks, last) = mallocs sizes next in ((block, size) ∷ blocks, last)

abbrev pub total : List ℕ → ℕ
total [] = 0
total (size ∷ sizes) = size + total sizes

-- The blocks lie one behind the other from a first address on, up to a last.
abbrev pub AreStacked : ℕ → List (ℕ × ℕ) → ℕ → Type 0
AreStacked first [] last = first ≡ last
AreStacked first ((block, size) ∷ blocks) last =
    (block ≡ first) × (block + size ≤ last) × AreStacked (first + size) blocks last

-- Where the sizes of all calls together do not lead to 2 ^ 16 or above, `import_malloc` gives blocks
-- that lie one behind the other without a gap from the first record on: no two of them meet.
pub import_malloc-AreStacked :
    (sizes : List ℕ) (malloc_record : ℕ)
    → malloc_record + total sizes < 2 ^ 16
    → let (blocks, last) = mallocs sizes malloc_record in
      AreStacked malloc_record blocks last × (last ≡ malloc_record + total sizes)
unfolding import_malloc
import_malloc-AreStacked [] r h = (refl, omega arith)
import_malloc-AreStacked (size ∷ sizes) r h =
    let next : (r + size) % 2 ^ 16 ≡ r + size = omega arith in
    let (a, b) = import_malloc-AreStacked sizes (r + size) (omega arith) in
    rw next ((refl, omega arith, a), omega arith)
