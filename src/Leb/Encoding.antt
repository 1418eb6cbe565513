-- ===== src/Leb/Encoding.antt =====
-- LEB128 as the binary format describes it: groups of seven bits, lowest first.
use wait.Common.{ℕ, zero, suc, ◌+◌, ◌*◌, ◌/◌, ◌%◌, ◌^◌, ◌≤◌, ◌<◌, ◌≡◌, arith}
use wait.Common.{List, [], ◌∷◌, ltb, if◌then◌else◌, length}

-- A last byte has the top bit clear, all before it have it set.
abbrev pub IsLeb : List ℕ → Type 0
IsLeb [] = ⊥
IsLeb (b ∷ []) = b < 128
IsLeb (b ∷ c ∷ bs) = (128 ≤ b) × (b < 256) × IsLeb (c ∷ bs)

-- Bytes that leave a number open: each has the top bit set.
abbrev pub IsOpen : List ℕ → Type 0
IsOpen [] = Unit
IsOpen (b ∷ bs) = (128 ≤ b) × (b < 256) × IsOpen bs

-- The number that the groups stand for.
abbrev pub leb_value : List ℕ → ℕ
leb_value [] = 0
leb_value (b ∷ bs) = b % 128 + 128 * leb_value bs

-- The bytes that stand in the program memory from an address on.
abbrev pub Holds : (ℕ → ℕ) → ℕ → List ℕ → Type 0
Holds flash ptr [] = Unit
Holds flash ptr (b ∷ bs) = (flash ptr ≡ b) × Holds flash (ptr + 1) bs

-- The shortest encoding of a number below 128 ^ (k + 1).
unfoldable pub leb_bytes : ℕ → ℕ → List ℕ
leb_bytes zero v = v ∷ []
leb_bytes (suc k) v =
    let rest = leb_bytes k (v / 128) in if ltb v 128 then v ∷ [] else (v % 128 + 128) ∷ rest

pub IsLeb-cons : (b : ℕ) (bs : List ℕ) → 128 ≤ b → b < 256 → IsLeb bs → IsLeb (b ∷ bs)
IsLeb-cons b [] h k l = elim l [ ]
IsLeb-cons b (c ∷ bs) h k l = (h, k, l)

pub leb_bytes_lem :
    (k v : ℕ)
    → v < 128 ^ suc k
    → IsLeb (leb_bytes k v) × (leb_value (leb_bytes k v) ≡ v) × (length (leb_bytes k v) ≤ k + 1)
unfolding leb_bytes
leb_bytes_lem zero v h = omega arith
leb_bytes_lem (suc k) v h = ground (
  arith,
  leb_bytes_lem k (v / 128) (omega arith),
  IsLeb-cons (v % 128 + 128) (leb_bytes k (v / 128)),
)

pub leb_bytes_some : (k v : ℕ) → 0 < length (leb_bytes k v)
unfolding leb_bytes
leb_bytes_some zero v = omega arith
leb_bytes_some (suc k) v = ground arith
