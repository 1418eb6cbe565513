-- ===== src/Imports/Copies.antt =====
-- src/user_import.c: what `import_memset` and `import_memcpy` leave in RAM.
use wait.Common.{
  ℕ, zero, suc, ◌+◌, ◌-◌, ◌%◌, ◌^◌, ◌≤◌, ◌<◌, ◌≡◌, refl, ap, ◌∙◌, ◌⊎◌, inl, inr, arith,
}
use wait.Common.{ok, true, false, ltb, leb, ◌&&◌, if◌then◌else◌, lt→ltb}
use native.Mathlib.Decide.{dec_lt}
use wait.Memory.{Memory, in_area, store_byte}
use wait.Imports.{
  overlap, addr_w2n, addr_w2n_p, memset_loop, import_memset, copy_from_rom, copy_in_ram,
  import_memcpy,
}

-- n bytes from an address on, and the rest as it was.
abbrev pub filled : (ℕ → ℕ) → ℕ → ℕ → (ℕ → ℕ) → ℕ → ℕ
filled ram p n content a = if leb p a && ltb a (p + n) then content (a - p) else ram a

memset_loop_lem :
    (n i p ch : ℕ) (ram : ℕ → ℕ) (a : ℕ)
    → p + i + n ≤ 2 ^ 16
    → memset_loop n i p ch ram a ≡ filled ram (p + i) n (λ k. ch % 2 ^ 8) a
unfolding memset_loop
memset_loop_lem zero i p ch ram a h = ground arith
memset_loop_lem (suc n) i p ch ram a h =
    memset_loop_lem n (i + 1) p ch (store_byte (p + i) ch ram) a (omega arith) ∙ ground arith

-- The first byte, and the rest.
pub filled-suc :
    (n to : ℕ) (all rest : ℕ → ℕ) (first : ℕ) (ram : ℕ → ℕ) (a : ℕ)
    → to < 2 ^ 16
    → all 0 ≡ first % 2 ^ 8
    → ((k : ℕ) → k < n → rest k ≡ all (k + 1))
    → filled (store_byte to first ram) (to + 1) n rest a ≡ filled ram to (suc n) all a
filled-suc n to all rest first ram a h e f = elim (dec_lt to a) [
  | yes k ↦
      let next : a - (to + 1) + 1 ≡ a - to = omega arith in
      ground (arith, f (a - (to + 1)), ap all next)
  | no k ↦ elim (dec_lt a to) [
    | yes l ↦ ground arith
    | no l ↦ let here : a - to ≡ 0 = omega arith in ground (arith, ap all here)
  ]
]

pub copy_from_rom_lem :
    (n : ℕ) (rom : ℕ → ℕ) (from to : ℕ) (ram : ℕ → ℕ) (a : ℕ)
    → to + n ≤ 2 ^ 16
    → copy_from_rom n rom from to ram a ≡ filled ram to n (λ k. rom (from + k) % 2 ^ 8) a
unfolding copy_from_rom
copy_from_rom_lem zero rom from to ram a h = ground arith
copy_from_rom_lem (suc n) rom from to ram a h =
    copy_from_rom_lem n rom (from + 1) (to + 1) (store_byte to (rom from) ram) a (omega arith)
    ∙ filled-suc n to (λ k. rom (from + k) % 2 ^ 8) (λ k. rom (from + 1 + k) % 2 ^ 8) (rom from) ram
        a (omega arith) (ap (λ x. rom x % 2 ^ 8) (omega arith))
        (λ k l. ap (λ x. rom x % 2 ^ 8) (omega arith))

regroup : (from j : ℕ) → from + 1 + j ≡ from + (j + 1)
regroup from j = omega arith

-- Upward copying reads no byte that it has written, where the target does not begin inside the source.
copy_in_ram_lem :
    (n from to : ℕ) (ram : ℕ → ℕ) (a : ℕ)
    → to + n ≤ 2 ^ 16
    → from + n ≤ 2 ^ 16
    → (to ≤ from) ⊎ (from + n ≤ to)
    → copy_in_ram n from to ram a ≡ filled ram to n (λ k. ram (from + k) % 2 ^ 8) a
unfolding copy_in_ram
copy_in_ram_lem zero from to ram a h k apart = ground arith
copy_in_ram_lem (suc n) from to ram a h k apart =
    let small : from % 2 ^ 16 ≡ from = omega arith in
    rw small (
      copy_in_ram_lem n (from + 1) (to + 1) (store_byte to (ram from) ram) a (omega arith)
        (omega arith) (ground arith)
      ∙ filled-suc n to (λ k. ram (from + k) % 2 ^ 8)
          (λ k. store_byte to (ram from) ram (from + 1 + k) % 2 ^ 8) (ram from) ram a (omega arith)
          (ap (λ x. ram x % 2 ^ 8) (omega arith)) (λ j l. ground (arith, ap ram (regroup from j))))

-- An address of the writable area in RAM, of the read-only area in the program memory.
abbrev pub ram_address : Memory → ℕ → ℕ
ram_address m a = m.writable.target + (a - m.writable.start)

abbrev pub rom_address : Memory → ℕ → ℕ
rom_address m a = m.read_only.target + (a - m.read_only.start)

module _ (m : Memory) where
  w2n :
      (a n : ℕ)
      → m.writable.start ≤ a
      → m.writable.start < 2 ^ 16
      → ram_address m a + n < 2 ^ 16
      → addr_w2n m a ≡ ram_address m a
  w2n a n h k l = omega arith

  -- Where fewer than 2 ^ 15 bytes from an address of the writable area on fit RAM, `import_memset`
  -- gives the address back and sets these bytes to the lowest byte of `ch`; all other memory is as it
  -- was.
  pub import_memset_lem :
      (s ch n : ℕ)
      → n < 2 ^ 15
      → m.writable.start ≤ s
      → m.writable.start < 2 ^ 16
      → ram_address m s + n < 2 ^ 16
      → (ram' : ℕ → ℕ) × (import_memset s ch n m ≡ ok (s, record m { ram = ram' }))
        × ((a : ℕ) → ram' a ≡ filled m.ram (ram_address m s) n (λ k. ch % 2 ^ 8) a)
  unfolding import_memset
  import_memset_lem s ch n short h k l =
      let e = w2n s n h k l in
      (
        memset_loop n 0 (ram_address m s) ch m.ram,
        rw (lt→ltb n (2 ^ 15) short, e) refl,
        λ a. memset_loop_lem n 0 (ram_address m s) ch m.ram a (omega arith) ∙ ground arith,
      )

  -- Where the source is in the read-only area, and n < 2 ^ 16 bytes from the target in the writable
  -- area on fit RAM, `import_memcpy` gives the source back and copies the n bytes that stand in the
  -- program memory to the target; all other memory is as it was.
  pub import_memcpy-rom :
      (d s n : ℕ)
      → in_area m.read_only s ≡ true
      → n < 2 ^ 16
      → m.read_only.start < 2 ^ 16
      → rom_address m s < 2 ^ 32
      → m.writable.start ≤ d
      → m.writable.start < 2 ^ 16
      → ram_address m d + n < 2 ^ 16
      → (ram' : ℕ → ℕ) × (import_memcpy d s n m ≡ ok (s, record m { ram = ram' }))
        × ((a : ℕ)
            → ram' a
              ≡ filled m.ram (ram_address m d) n (λ k. m.rom (rom_address m s + k) % 2 ^ 8) a)
  unfolding import_memcpy
  import_memcpy-rom d s n inside short start far h k l =
      let e = w2n d n h k l in
      let above : m.read_only.start ≤ s = ground arith in
      let from : addr_w2n_p m s ≡ rom_address m s = omega arith in
      let size : n % 2 ^ 16 ≡ n = omega arith in
      (
        copy_from_rom n m.rom (rom_address m s) (ram_address m d) m.ram,
        rw (inside, size, from, e) refl,
        λ a. copy_from_rom_lem n m.rom (rom_address m s) (ram_address m d) m.ram a (omega arith),
      )

  -- Where the source is in the writable area, and n < 2 ^ 16 bytes from the source and from the
  -- target on fit RAM and have none in common, `import_memcpy` gives the source back and copies the n
  -- bytes that stand at the source to the target; all other memory is as it was.
  pub import_memcpy-ram :
      (d s n : ℕ)
      → in_area m.read_only s ≡ false
      → n < 2 ^ 16
      → m.writable.start ≤ s
      → m.writable.start ≤ d
      → m.writable.start < 2 ^ 16
      → ram_address m s + n < 2 ^ 16
      → ram_address m d + n < 2 ^ 16
      → (d + n ≤ s) ⊎ (s + n ≤ d)
      → (ram' : ℕ → ℕ) × (import_memcpy d s n m ≡ ok (s, record m { ram = ram' }))
        × ((a : ℕ)
            → ram' a
              ≡ filled m.ram (ram_address m d) n (λ k. m.ram (ram_address m s + k) % 2 ^ 8) a)
  unfolding import_memcpy overlap
  import_memcpy-ram d s n outside short hs hd k ls ld apart =
      let e = w2n d n hd k ld in
      let e' = w2n s n hs k ls in
      let size : n % 2 ^ 16 ≡ n = omega arith in
      let clear : overlap (ram_address m s) (ram_address m d) n ≡ false = ground arith in
      (
        copy_in_ram n (ram_address m s) (ram_address m d) m.ram,
        rw (outside, size, e, e', clear) refl,
        λ a.
            copy_in_ram_lem n (ram_address m s) (ram_address m d) m.ram a (omega arith)
              (omega arith) (elim apart [ inl l ↦ inl (omega arith) | inr l ↦ inr (omega arith) ]),
      )
