-- ===== src/Avr/Kept.antt =====
-- Numbers in registers, and what a stretch of code keeps.
use wait.Common.{ℕ, ◌+◌, ◌/◌, ◌%◌, ◌≡◌, ap, ◌∙◌, List, Option, none, some}
use wait.Avr.Cpu.{Cpu, Ends, Leaves, bytes32}

-- Four registers from `r` on hold a number.
abbrev pub Holds : ℕ → Cpu → ℕ → Type 0
Holds r c v =
    (c.regs r ≡ v % 256)
    × (c.regs (r + 1) ≡ v / 256 % 256)
    × (c.regs (r + 2) ≡ v / 65536 % 256)
    × (c.regs (r + 3) ≡ v / 16777216 % 256)

-- The stack, the memory and the registers that compiled code relies on are the same.
abbrev pub Keeps : Cpu → Cpu → Type 0
Keeps c c' =
    (c'.stack ≡ c.stack)
    × (c'.memory ≡ c.memory)
    × (c'.regs 1 ≡ c.regs 1)
    × (c'.regs 2 ≡ c.regs 2)
    × (c'.regs 3 ≡ c.regs 3)
    × (c'.regs 28 ≡ c.regs 28)
    × (c'.regs 29 ≡ c.regs 29)

pub Keeps-trans : (c d e : Cpu) → Keeps c d → Keeps d e → Keeps c e
Keeps-trans c d e (p₀, p₁, p₂, p₃, p₄, p₅, p₆) (q₀, q₁, q₂, q₃, q₄, q₅, q₆) =
    (q₀ ∙ p₀, q₁ ∙ p₁, q₂ ∙ p₂, q₃ ∙ p₃, q₄ ∙ p₄, q₅ ∙ p₅, q₆ ∙ p₆)

pub Ends-map :
    (r : Option (ℕ × Cpu)) (n : ℕ) (P Q : Cpu → Type 0)
    → ((d : Cpu) → P d → Q d)
    → Ends r n P
    → Ends r n Q
Ends-map none n P Q f h = h
Ends-map (some (m, d)) n P Q f (h, p) = (h, f d p)

pub Keeps-Leaves :
    (v : ℕ) (c d e : Cpu)
    → Keeps c d
    → Leaves (bytes32 v d.stack) d e
    → Leaves (bytes32 v c.stack) c e
Keeps-Leaves v c d e (p₀, p₁, p₂, p₃, p₄, p₅, p₆) (q₀, q₁, q₂, q₃, q₄, q₅, q₆) =
    (q₀ ∙ ap (λ (r : List ℕ). bytes32 v r) p₀, q₁ ∙ p₁, q₂ ∙ p₂, q₃ ∙ p₃, q₄ ∙ p₄, q₅ ∙ p₅, q₆ ∙ p₆)
