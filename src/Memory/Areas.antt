-- ===== src/Memory/Areas.antt =====
-- Loads and stores of src/memory.c, where the read-only area lies below the writable one.
use wait.Common.{ℕ, ◌+◌, ◌-◌, ◌/◌, ◌%◌, ◌^◌, ◌<◌, ◌≤◌, ◌≡◌, refl, ap, ◌∙◌, arith}
use wait.Common.{true, false, Bool-cases, ◌⊎◌, inl, inr, ok, trap}
use native.Mathlib.Decide.{dec_lt}
use wait.Memory.{Memory, in_area, target_of, ram_pointer, dword_at, write_8, write_16}
use wait.Memory.{write_32, store_with, embed_i32load, embed_i32store, embed_i32store16}
use wait.Memory.{embed_i32store8}

-- The read-only area lies below the writable one, and a number at the last address of the writable
-- area still fits RAM.
pub record IsPlaced (m : Memory) : Type 0 where
  pub below : m.read_only.end ≤ m.writable.start
  pub ordered : m.writable.start ≤ m.writable.end
  pub fits : m.writable.target + (m.writable.end - m.writable.start) + 3 ≤ 2 ^ 16

-- The address of a target in RAM.
abbrev pub address : Memory → ℕ → ℕ
address m t = m.writable.target + t - m.writable.start

pub in_writable :
    (m : Memory) (t : ℕ)
    → IsPlaced m
    → m.writable.start ≤ t
    → t < m.writable.end
    → (in_area m.read_only t ≡ false)
      × (in_area m.writable t ≡ true)
      × (ram_pointer m.writable t ≡ address m t)
      × (address m t + 3 < 2 ^ 16)
in_writable m t p h k =
    let b = p.below in
    let o = p.ordered in let f = p.fits in (ground arith, ground arith, omega arith, omega arith)

-- What a store of four bytes leaves.
module _ (v : ℕ) (ram : ℕ → ℕ) (p : ℕ) (k : p + 3 < 2 ^ 16) where
  byte_0 : write_32 v ram p (p % 2 ^ 16) ≡ v % 2 ^ 8
  byte_0 = ground arith

  byte_1 : write_32 v ram p ((p + 1) % 2 ^ 16) ≡ v / 2 ^ 8 % 2 ^ 8
  byte_1 = ground arith

  byte_2 : write_32 v ram p ((p + 2) % 2 ^ 16) ≡ v / 2 ^ 16 % 2 ^ 8
  byte_2 = ground arith

  byte_3 : write_32 v ram p ((p + 3) % 2 ^ 16) ≡ v / 2 ^ 24 % 2 ^ 8
  byte_3 = ground arith

  read_back : v < 2 ^ 32 → dword_at (λ a. write_32 v ram p (a % 2 ^ 16)) p ≡ v
  read_back h = omega (arith, byte_0, byte_1, byte_2, byte_3)

  -- No other byte of RAM is written.
  below_range : (a : ℕ) → a < p → write_32 v ram p a ≡ ram a
  below_range a h = ground arith

  above_range : (a : ℕ) → p + 3 < a → write_32 v ram p a ≡ ram a
  above_range a h = ground arith

  untouched : (a : ℕ) → ((p ≤ a) × (a ≤ p + 3)) ⊎ (write_32 v ram p a ≡ ram a)
  untouched a = elim (dec_lt a p) [
    | yes low ↦ inr (below_range a low)
    | no from ↦ elim (dec_lt (p + 3) a) [
      | yes high ↦ inr (above_range a high)
      | no upto ↦ inl (omega arith, omega arith)
    ]
  ]

module _ (v offset addr : ℕ) (m : Memory) where
  -- Where the read-only area lies below the writable one, and RAM has room for a number at the
  -- writable area's last address, storing v below 2 ^ 32 at an offset and address in the writable area
  -- succeeds, a load from there gives v back, and no byte of RAM but the four at that address changes.
  pub load-store :
      IsPlaced m
      → v < 2 ^ 32
      → m.writable.start ≤ target_of offset addr
      → target_of offset addr < m.writable.end
      → (m' : Memory) × (embed_i32store v offset addr m ≡ ok m')
        × (embed_i32load offset addr m' ≡ ok v)
        × ((a : ℕ)
            → ((address m (target_of offset addr) ≤ a)
                × (a ≤ address m (target_of offset addr) + 3))
              ⊎ (m'.ram a ≡ m.ram a))
  unfolding embed_i32store embed_i32load
  load-store placed hv h k =
      let t : ℕ = target_of offset addr in
      let q : ℕ = address m t in
      let (r, w, e, room) = in_writable m t placed h k in
      let stored : ℕ → ℕ = write_32 v m.ram q in
      (
        record m { ram = stored },
        rw (r, w) (ap (λ (x : ℕ). ok (record m { ram = write_32 v m.ram x })) e),
        rw (r, w)
            (ap (λ (x : ℕ). ok (dword_at (λ a. stored (a % 2 ^ 16)) x)) e
              ∙ ap (λ (x : ℕ). ok x) (read_back v m.ram q room hv)),
        untouched v m.ram q room,
      )

  outside :
      (target_of offset addr < m.writable.start) ⊎ (m.writable.end ≤ target_of offset addr)
      → in_area m.writable (target_of offset addr) ≡ false
  outside (inl h) = ground arith
  outside (inr h) = ground arith

  stopped :
      (target_of offset addr < m.writable.start) ⊎ (m.writable.end ≤ target_of offset addr)
      → (write : (ℕ → ℕ) → ℕ → ℕ → ℕ) → store_with write offset addr m ≡ trap
  stopped out write =
      let w : in_area m.writable (target_of offset addr) ≡ false = outside out in
      elim (Bool-cases (in_area m.read_only (target_of offset addr))) [
        | inl e ↦ rw e refl
        | inr e ↦ rw (e, w) refl
      ]

  -- A store of any width at an offset and address whose 16-bit sum is outside the writable area
  -- stops.
  pub store_stopped :
      (target_of offset addr < m.writable.start) ⊎ (m.writable.end ≤ target_of offset addr)
      → (embed_i32store v offset addr m ≡ trap)
        × (embed_i32store16 v offset addr m ≡ trap)
        × (embed_i32store8 v offset addr m ≡ trap)
  unfolding embed_i32store embed_i32store16 embed_i32store8
  store_stopped out = (stopped out (write_32 v), stopped out (write_16 v), stopped out (write_8 v))
