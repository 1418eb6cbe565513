-- ===== src/Compile/Entry/Bytes.antt =====
-- Bytes in RAM: what the copies of src/compile.c leave, and what the loads of src/memory.c read.
use wait.Common.{ℕ, zero, suc, ◌+◌, ◌-◌, ◌*◌, ◌/◌, ◌%◌, ◌^◌, ◌≤◌, ◌<◌, ◌≡◌, refl, ap, ◌∙◌, arith}
use wait.Common.{List, [], ◌∷◌, length, take, get_or, get_elem?, some, ok}
use wait.Memory.Areas.{IsPlaced, in_writable}
use wait.Memory.{ram_pointer, Memory, store_byte, dword_at, embed_i32load}
use wait.Imports.Copies.{filled, filled-suc}
use wait.Compile.Entry.{global_bytes, store_bytes}

pub store_bytes_lem :
    (bs : List ℕ) (p : ℕ) (ram : ℕ → ℕ) (a : ℕ)
    → p + length bs ≤ 2 ^ 16
    → store_bytes bs p ram a ≡ filled ram p (length bs) (λ k. get_or bs k 0 % 2 ^ 8) a
unfolding store_bytes
store_bytes_lem [] p ram a h = ground arith
store_bytes_lem (b ∷ bs) p ram a h =
    store_bytes_lem bs (p + 1) (store_byte p b ram) a (omega arith)
    ∙ filled-suc (length bs) p (λ k. get_or (b ∷ bs) k 0 % 2 ^ 8) (λ k. get_or bs k 0 % 2 ^ 8) b ram
        a (omega arith) refl (λ k l. let e : k + 1 ≡ suc k = omega arith in rw e refl)

pub length-global_bytes : (vs : List ℕ) → length (global_bytes vs) ≡ 4 * length vs
length-global_bytes [] = refl
length-global_bytes (v ∷ vs) = omega (arith, length-global_bytes vs)

pub take-all : (xs : List ℕ) → take (length xs) xs ≡ xs
take-all [] = refl
take-all (x ∷ xs) = ap (λ ys. x ∷ ys) (take-all xs)

-- The four bytes of each number.
pub global_bytes-number :
    (vs : List ℕ) (i v : ℕ)
    → get_elem? vs i ≡ some v
    → v < 2 ^ 32
    → dword_at (λ k. get_or (global_bytes vs) k 0 % 2 ^ 8) (4 * i) ≡ v
global_bytes-number [] i v e h = cc
global_bytes-number (w ∷ vs) zero v e h = let same : w ≡ v = cc in omega arith
global_bytes-number (w ∷ vs) (suc i) v e h =
    let all =
      w % 2 ^ 8 ∷ w / 2 ^ 8 % 2 ^ 8 ∷ w / 2 ^ 16 % 2 ^ 8 ∷ w / 2 ^ 24 % 2 ^ 8 ∷ global_bytes vs in
    let e0 : 4 * suc i ≡ suc (suc (suc (suc (4 * i)))) = omega arith in
    let e1 : 4 * suc i + 1 ≡ suc (suc (suc (suc (4 * i + 1)))) = omega arith in
    let e2 : 4 * suc i + 2 ≡ suc (suc (suc (suc (4 * i + 2)))) = omega arith in
    let e3 : 4 * suc i + 3 ≡ suc (suc (suc (suc (4 * i + 3)))) = omega arith in
    rw (e1, e2, e3, e0) (global_bytes-number vs i v e h)

-- Four bytes that are the same give the same number.
pub dword_at-same :
    (f g : ℕ → ℕ) (p q : ℕ)
    → ((j : ℕ) → j < 4 → f (p + j) ≡ g (q + j))
    → dword_at f p ≡ dword_at g q
dword_at-same f g p q same =
    let p0 : p + 0 ≡ p = omega arith in
    let q0 : q + 0 ≡ q = omega arith in
    omega (
      arith,
      ap f p0,
      ap g q0,
      same 0 (omega arith),
      same 1 (omega arith),
      same 2 (omega arith),
      same 3 (omega arith),
    )

-- What a load reads in each of the two areas.
module _ (m : Memory) (start size k : ℕ) where
  pub load_read_only :
      (bytes : ℕ)
      → m.read_only ≡ record { start = start; end = start + size; target = bytes }
      → k < size
      → start + size < 2 ^ 16
      → bytes + size < 2 ^ 32
      → embed_i32load 0 (start + k) m ≡ ok (dword_at m.rom (bytes + k))
  unfolding embed_i32load
  load_read_only bytes area inside low far =
      let target : (start + k + 0) % 2 ^ 16 ≡ start + k = omega arith in
      let pointer : (bytes + (start + k) - start) % 2 ^ 32 ≡ bytes + k = omega arith in
      rw (area, target, pointer) (ground arith)

  pub load_writable :
      (content : ℕ → ℕ)
      → IsPlaced m
      → m.writable.start ≡ start
      → start + k < m.writable.end
      → m.writable.end < 2 ^ 16
      → ((j : ℕ) → j < 4 → m.ram (m.writable.target + (k + j)) ≡ content (k + j))
      → embed_i32load 0 (start + k) m ≡ ok (dword_at content k)
  unfolding embed_i32load
  load_writable content placed here inside low same =
      let target : (start + k + 0) % 2 ^ 16 ≡ start + k = omega arith in
      let (outside, within, pointer, fits) =
        in_writable m (start + k) placed (omega arith) inside in
      let base : ram_pointer m.writable (start + k) ≡ m.writable.target + k = omega arith in
      rw (target, outside, within, base)
        (ap ok (
          dword_at-same (λ a. m.ram (a % 2 ^ 16)) content (m.writable.target + k) k
            (λ j l.
              let small : (m.writable.target + k + j) % 2 ^ 16 ≡ m.writable.target + (k + j) =
                omega arith in
              rw small (same j l))))
