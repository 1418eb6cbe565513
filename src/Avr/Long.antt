-- ===== src/Avr/Long.antt =====
-- Arithmetic on four bytes, carried from byte to byte, is arithmetic on the number.
use wait.Common.{ℕ, ◌+◌, ◌-◌, ◌/◌, ◌%◌, ◌^◌, ◌≤◌, ◌<◌, ◌≡◌, arith, List, ◌∷◌, leb, ltb}
use wait.Avr.Cpu.{bit, bytes32}

carry_out : (x : ℕ) → x < 512 → bit (leb 256 x) ≡ x / 256
carry_out x h = ground arith

-- The sum without its lowest byte.
high_sum : (a b c : ℕ) → (a + b + c) / 256 ≡ a / 256 + b / 256 + (a % 256 + b % 256 + c) / 256
high_sum a b c = omega arith

module _ (b a : ℕ) where
  abbrev pub carry₁ : ℕ
  carry₁ = bit (leb 256 (b % 256 + a % 256 + 0))

  abbrev pub carry₂ : ℕ
  carry₂ = bit (leb 256 (b / 256 % 256 + a / 256 % 256 + carry₁))

  abbrev pub carry₃ : ℕ
  carry₃ = bit (leb 256 (b / 65536 % 256 + a / 65536 % 256 + carry₂))

  carry₁_lem : (carry₁ ≤ 1) × ((b + a) / 256 ≡ b / 256 + a / 256 + carry₁)
  carry₁_lem = omega (arith, carry_out (b % 256 + a % 256 + 0) (omega arith))

  carry₂_lem : (carry₂ ≤ 1) × ((b + a) / 65536 ≡ b / 65536 + a / 65536 + carry₂)
  carry₂_lem =
      let (l, e) = carry₁_lem in
      let q = carry_out (b / 256 % 256 + a / 256 % 256 + carry₁) (omega arith) in
      let h = high_sum (b / 256) (a / 256) carry₁ in omega arith

  carry₃_lem : (carry₃ ≤ 1) × ((b + a) / 16777216 ≡ b / 16777216 + a / 16777216 + carry₃)
  carry₃_lem =
      let (l, e) = carry₂_lem in
      let q = carry_out (b / 65536 % 256 + a / 65536 % 256 + carry₂) (omega arith) in
      let h = high_sum (b / 65536) (a / 65536) carry₂ in omega arith

four :
    (x₀ x₁ x₂ x₃ y₀ y₁ y₂ y₃ : ℕ) (rest : List ℕ)
    → x₀ ≡ y₀
    → x₁ ≡ y₁
    → x₂ ≡ y₂
    → x₃ ≡ y₃
    → ◌≡◌ {A = List ℕ} (x₀ ∷ x₁ ∷ x₂ ∷ x₃ ∷ rest) (y₀ ∷ y₁ ∷ y₂ ∷ y₃ ∷ rest)
four x₀ x₁ x₂ x₃ y₀ y₁ y₂ y₃ rest p q r s = cc

-- ADD and three ADC on the bytes of `b` and `a`.
pub sum_bytes :
    (b a : ℕ)
    → ((b % 256 + a % 256 + 0) % 256 ≡ (a + b) % 2 ^ 32 % 256)
      × ((b / 256 % 256 + a / 256 % 256 + carry₁ b a) % 256 ≡ (a + b) % 2 ^ 32 / 256 % 256)
      × ((b / 65536 % 256 + a / 65536 % 256 + carry₂ b a) % 256 ≡ (a + b) % 2 ^ 32 / 65536 % 256)
      × ((b / 16777216 % 256 + a / 16777216 % 256 + carry₃ b a) % 256
          ≡ (a + b) % 2 ^ 32 / 16777216 % 256)
sum_bytes b a = (
  omega arith,
  omega (arith, carry₁_lem b a),
  omega (arith, carry₂_lem b a),
  omega (arith, carry₃_lem b a),
)

pub add_bytes :
    (b a : ℕ) (rest : List ℕ)
    → ◌≡◌ {A = List ℕ}
        ((b % 256 + a % 256 + 0) % 256
          ∷ (b / 256 % 256 + a / 256 % 256 + carry₁ b a) % 256
          ∷ (b / 65536 % 256 + a / 65536 % 256 + carry₂ b a) % 256
          ∷ (b / 16777216 % 256 + a / 16777216 % 256 + carry₃ b a) % 256
          ∷ rest)
        (bytes32 ((a + b) % 2 ^ 32) rest)
add_bytes b a rest = let (e₀, e₁, e₂, e₃) = sum_bytes b a in four _ _ _ _ _ _ _ _ rest e₀ e₁ e₂ e₃

borrow_out : (x y : ℕ) → x < 256 → y ≤ 256 → bit (ltb x y) + (x + 256 - y) / 256 ≡ 1
borrow_out x y h k = ground arith

module _ (a b : ℕ) where
  abbrev pub borrow₁ : ℕ
  borrow₁ = bit (ltb (a % 256) (b % 256 + 0))

  abbrev pub borrow₂ : ℕ
  borrow₂ = bit (ltb (a / 256 % 256) (b / 256 % 256 + borrow₁))

  abbrev pub borrow₃ : ℕ
  borrow₃ = bit (ltb (a / 65536 % 256) (b / 65536 % 256 + borrow₂))

  abbrev pub borrow₄ : ℕ
  borrow₄ = bit (ltb (a / 16777216 % 256) (b / 16777216 % 256 + borrow₃))

  module _ (ha : a < 2 ^ 32) (hb : b < 2 ^ 32) where
    pub borrow₁_lem :
        (borrow₁ ≤ 1) × ((a + 2 ^ 32 - b) / 256 + b / 256 + borrow₁ ≡ a / 256 + 2 ^ 24)
    borrow₁_lem = omega (arith, borrow_out (a % 256) (b % 256 + 0) (omega arith) (omega arith))

    pub borrow₂_lem :
        (borrow₂ ≤ 1) × ((a + 2 ^ 32 - b) / 65536 + b / 65536 + borrow₂ ≡ a / 65536 + 2 ^ 16)
    borrow₂_lem =
        let (l, e) = borrow₁_lem in
        let q = borrow_out (a / 256 % 256) (b / 256 % 256 + borrow₁) (omega arith) (omega arith) in
        omega arith

    pub borrow₃_lem :
        (borrow₃ ≤ 1)
        × ((a + 2 ^ 32 - b) / 16777216 + b / 16777216 + borrow₃ ≡ a / 16777216 + 2 ^ 8)
    borrow₃_lem =
        let (l, e) = borrow₂_lem in
        let q =
          borrow_out (a / 65536 % 256) (b / 65536 % 256 + borrow₂) (omega arith) (omega arith) in
        omega arith

    -- The last borrow says whether a is below b.
    pub borrow₄_lem : (borrow₄ ≤ 1) × ((a + 2 ^ 32 - b) / 2 ^ 32 + borrow₄ ≡ 1)
    borrow₄_lem =
        let (l, e) = borrow₃_lem in
        let q =
          borrow_out (a / 16777216 % 256) (b / 16777216 % 256 + borrow₃) (omega arith)
            (omega arith) in
        omega arith

    -- SUB and three SBC on the bytes of `a` and `b`.
    pub sub_bytes :
        (rest : List ℕ)
        → ◌≡◌ {A = List ℕ}
            ((a % 256 + 256 - b % 256 - 0) % 256
              ∷ (a / 256 % 256 + 256 - b / 256 % 256 - borrow₁) % 256
              ∷ (a / 65536 % 256 + 256 - b / 65536 % 256 - borrow₂) % 256
              ∷ (a / 16777216 % 256 + 256 - b / 16777216 % 256 - borrow₃) % 256
              ∷ rest)
            (bytes32 ((a + 2 ^ 32 - b) % 2 ^ 32) rest)
    sub_bytes rest =
        four _ _ _ _ _ _ _ _ rest (omega arith) (omega (arith, borrow₁_lem))
          (omega (arith, borrow₂_lem)) (omega (arith, borrow₃_lem))
