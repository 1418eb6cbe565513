-- ===== src/Avr/Flags.antt =====
-- The flags after CP and three CPC on the bytes of two numbers: their order and equality.
use wait.Common.{ℕ, ◌+◌, ◌-◌, ◌*◌, ◌/◌, ◌%◌, ◌^◌, ◌≤◌, ◌<◌, ◌≡◌, sym, ◌∙◌, arith, ltb, ◌==◌}
use wait.Common.{Bool, true, ◌&&◌}
use wait.Avr.Cpu.{differs, is_high}
use wait.Avr.Long.{borrow₁, borrow₂, borrow₃, borrow₁_lem, borrow₂_lem, borrow₃_lem}

-- A pattern as a two's complement number, moved up by 2 ^ 31.
abbrev pub biased : ℕ → ℕ
biased x = (x + 2 ^ 31) % 2 ^ 32

module _ (a b : ℕ) where
  abbrev pub carry_flag : Bool
  carry_flag = ltb (a / 16777216 % 256) (b / 16777216 % 256 + borrow₃ a b)

  abbrev pub difference₀ : ℕ
  difference₀ = (a % 256 + 256 - b % 256 - 0) % 256

  abbrev pub difference₁ : ℕ
  difference₁ = (a / 256 % 256 + 256 - b / 256 % 256 - borrow₁ a b) % 256

  abbrev pub difference₂ : ℕ
  difference₂ = (a / 65536 % 256 + 256 - b / 65536 % 256 - borrow₂ a b) % 256

  abbrev pub difference₃ : ℕ
  difference₃ = (a / 16777216 % 256 + 256 - b / 16777216 % 256 - borrow₃ a b) % 256

  abbrev pub zero_flag : Bool
  zero_flag =
      (difference₃ == 0)
      && ((difference₂ == 0) && ((difference₁ == 0) && ((difference₀ == 0) && true)))

  abbrev pub sign_flag : Bool
  sign_flag = differs (is_high difference₃) (
      differs (is_high (a / 16777216 % 256)) (is_high (b / 16777216 % 256))
      && differs (is_high (a / 16777216 % 256)) (is_high difference₃))

top_sign :
    (x y c : ℕ)
    → x < 256
    → y < 256
    → c ≤ 1
    → differs
        (is_high ((x + 256 - y - c) % 256))
        (differs (is_high x) (is_high y) && differs (is_high x) (is_high ((x + 256 - y - c) % 256)))
      ≡ ltb ((x + 128) % 256) ((y + 128) % 256 + c)
top_sign x y c hx hy hc = ground arith

ltb_iff : (m n p q : ℕ) → (m < n → p < q) → (n ≤ m → q ≤ p) → ltb m n ≡ ltb p q
ltb_iff m n p q f g = ground arith

pub equal_iff : (m n p q : ℕ) → (m ≡ n → p ≡ q) → (p ≡ q → m ≡ n) → (m == n) ≡ (p == q)
equal_iff m n p q f g = ground arith

abbrev number : ℕ → ℕ → ℕ → ℕ → ℕ
number d₀ d₁ d₂ d₃ = d₀ + d₁ * 256 + d₂ * 65536 + d₃ * 16777216

four_zero :
    (d₀ d₁ d₂ d₃ : ℕ)
    → (number d₀ d₁ d₂ d₃ == 0) ≡ (d₃ == 0) && ((d₂ == 0) && ((d₁ == 0) && ((d₀ == 0) && true)))
four_zero d₀ d₁ d₂ d₃ = ground arith

module _ (a b : ℕ) (ha : a < 2 ^ 32) (hb : b < 2 ^ 32) where
  pub carry_flag_lem : ltb a b ≡ carry_flag a b
  carry_flag_lem =
      let (l, e) = borrow₃_lem a b ha hb in
      ltb_iff a b (a / 16777216 % 256) (b / 16777216 % 256 + borrow₃ a b) (λ h. omega arith)
        (λ h. omega arith)

  pub sign_flag_lem : ltb (biased a) (biased b) ≡ sign_flag a b
  sign_flag_lem =
      let (l, e) = borrow₃_lem a b ha hb in
      ltb_iff (biased a) (biased b) ((a / 16777216 % 256 + 128) % 256)
        ((b / 16777216 % 256 + 128) % 256 + borrow₃ a b) (λ h. omega arith) (λ h. omega arith)
      ∙ sym (
          top_sign (a / 16777216 % 256) (b / 16777216 % 256) (borrow₃ a b) (omega arith)
            (omega arith) l)

  pub zero_flag_lem : (a == b) ≡ zero_flag a b
  zero_flag_lem =
      let (l₁, e₁) = borrow₁_lem a b ha hb in
      let (l₂, e₂) = borrow₂_lem a b ha hb in
      let (l₃, e₃) = borrow₃_lem a b ha hb in
      equal_iff a b (number (difference₀ a b) (difference₁ a b) (difference₂ a b) (difference₃ a b))
        0 (λ h. omega arith) (λ h. omega arith)
      ∙ four_zero (difference₀ a b) (difference₁ a b) (difference₂ a b) (difference₃ a b)
