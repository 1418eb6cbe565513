-- ===== src/Instructions/Loads/Extend.antt =====
-- How the narrow loads of src/instructions.c widen a number: the words, and what they compute.
use wait.Common.{
  ℕ, zero, suc, ◌+◌, ◌-◌, ◌/◌, ◌%◌, ◌^◌, ◌≡◌, refl, ap, ◌∙◌, List, [], ◌∷◌, length, arith,
}
use wait.Common.{Bool, true, false, ltb, if◌then◌else◌}
use wait.Common.{◌≤◌, bit_xor, xor_halves}
use Prim.Native.Nat.{differ}
use wait.Asm
use wait.Asm.{asm_single_reg, asm_src_dest, asm_branch, asm_immediate, asm_rjmp, forward}
use wait.Ops.Words.{emit_all, Emits, bind_assoc, bind_unit}
use wait.Avr.{disassemble}
use wait.Avr.Cpu.{Calls, Cpu, run, Ends, is_high, bit, subtract_with, compare_with}
use wait.Avr.Kept.{Holds, Keeps, Ends-map}
use wait.Instructions.Numeric.Bytes.{cpu_with}
use wait.Instructions.Loads.{
  Width, full, byte_unsigned, byte_signed, half_unsigned, half_signed, extend,
}
use wait.Instructions.Loads.{extend_byte_signed, extend_half_signed}

-- The low bytes of a number, with zeros or copies of their sign above.
unfoldable pub extended : Width → ℕ → ℕ
extended full v = v
extended byte_unsigned v = v % 2 ^ 8
extended half_unsigned v = v % 2 ^ 16
extended byte_signed v = if ltb (v % 2 ^ 8) (2 ^ 7) then v % 2 ^ 8 else v % 2 ^ 8 + (2 ^ 32 - 2 ^ 8)
extended half_signed v =
    if ltb (v % 2 ^ 16) (2 ^ 15) then v % 2 ^ 16 else v % 2 ^ 16 + (2 ^ 32 - 2 ^ 16)

abbrev eor_self : ℕ → ℕ
eor_self reg = asm_src_dest Asm.opcode_eor reg reg

abbrev load : ℕ → ℕ → ℕ
load reg k = asm_immediate Asm.opcode_ldi reg k

unfoldable pub extend_words : Width → List ℕ
extend_words full = []
extend_words byte_unsigned = eor_self 23 ∷ eor_self 24 ∷ eor_self 25 ∷ []
extend_words half_unsigned = eor_self 24 ∷ eor_self 25 ∷ []
extend_words byte_signed =
    asm_immediate Asm.opcode_subi 22 0
    ∷ asm_branch Asm.opcode_brmi (forward 8)
    ∷ load 23 0
    ∷ load 24 0
    ∷ load 25 0
    ∷ asm_rjmp (forward 6)
    ∷ load 23 255
    ∷ load 24 255
    ∷ load 25 255
    ∷ []
extend_words half_signed =
    asm_src_dest Asm.opcode_cp 22 1
    ∷ asm_src_dest Asm.opcode_cpc 23 1
    ∷ asm_branch Asm.opcode_brmi (forward 6)
    ∷ load 24 0
    ∷ load 25 0
    ∷ asm_rjmp (forward 4)
    ∷ load 24 255
    ∷ load 25 255
    ∷ []

extend-Emits : (width : Width) → Emits (extend width) (extend_words width) (λ s. s)
unfolding extend extend_byte_signed extend_half_signed extend_words emit_all
extend-Emits full s = refl
extend-Emits byte_unsigned s = simp (bind_assoc, bind_unit)
extend-Emits half_unsigned s = simp (bind_assoc, bind_unit)
extend-Emits byte_signed s = simp (bind_assoc, bind_unit)
extend-Emits half_signed s = simp (bind_assoc, bind_unit)

abbrev fill : Bool → ℕ
fill true = 255
fill false = 0

-- From the branch on: the upper bytes become 255 or 0, as the flag says.
module _ (calls : Calls) (regs memory : ℕ → ℕ) (stack : List ℕ) where
  byte_filled :
      (c z n s : Bool)
      → let d = cpu_with regs memory stack c z n s in
        Ends (run calls 9 (disassemble (extend_words byte_signed)) 1 d) 9 (λ e.
          (e.regs 22 ≡ regs 22)
          × (e.regs 23 ≡ fill n)
          × (e.regs 24 ≡ fill n)
          × (e.regs 25 ≡ fill n)
          × Keeps d e)
  unfolding run disassemble asm_src_dest asm_branch asm_immediate asm_rjmp extend_words
  byte_filled _ _ true _ =
      (refl, (refl, refl, refl, refl, (refl, refl, refl, refl, refl, refl, refl)))
  byte_filled _ _ false _ =
      (refl, (refl, refl, refl, refl, (refl, refl, refl, refl, refl, refl, refl)))

  half_filled :
      (c z n s : Bool)
      → let d = cpu_with regs memory stack c z n s in
        Ends (run calls 8 (disassemble (extend_words half_signed)) 2 d) 8 (λ e.
          (e.regs 22 ≡ regs 22)
          × (e.regs 23 ≡ regs 23)
          × (e.regs 24 ≡ fill n)
          × (e.regs 25 ≡ fill n)
          × Keeps d e)
  unfolding run disassemble asm_src_dest asm_branch asm_immediate asm_rjmp extend_words
  half_filled _ _ true _ =
      (refl, (refl, refl, refl, refl, (refl, refl, refl, refl, refl, refl, refl)))
  half_filled _ _ false _ =
      (refl, (refl, refl, refl, refl, (refl, refl, refl, refl, refl, refl, refl)))

-- An exclusive or of a register with itself.
differ_self : (n : ℕ) → differ n n ≡ 0
differ_self zero = refl
differ_self (suc n) = differ_self n

xor_self_fuel : (fuel n : ℕ) → n ≤ fuel → bit_xor n n ≡ 0
xor_self_fuel zero n h = let e : n ≡ 0 = omega arith in rw e refl
xor_self_fuel (suc fuel) n h =
    ground (arith, xor_halves n n, differ_self (n % 2), xor_self_fuel fuel (n / 2))

xor_self : (n : ℕ) → bit_xor n n ≡ 0
xor_self n = xor_self_fuel n n (omega arith)

fill_byte : (v : ℕ) → fill (is_high (v % 256)) ≡ (if ltb (v % 256) 128 then 0 else 255)
fill_byte v = ground arith

-- The bytes of a number with copies of its sign above.
byte_extended :
    (v : ℕ)
    → (v % 256 ≡ extended byte_signed v % 256)
      × (fill (is_high (v % 256)) ≡ extended byte_signed v / 256 % 256)
      × (fill (is_high (v % 256)) ≡ extended byte_signed v / 65536 % 256)
      × (fill (is_high (v % 256)) ≡ extended byte_signed v / 16777216 % 256)
unfolding extended
byte_extended v = (ground arith, ground arith, ground arith, ground arith)

half_extended :
    (v : ℕ)
    → (v % 256 ≡ extended half_signed v % 256)
      × (v / 256 % 256 ≡ extended half_signed v / 256 % 256)
      × (fill (is_high (v / 256 % 256)) ≡ extended half_signed v / 65536 % 256)
      × (fill (is_high (v / 256 % 256)) ≡ extended half_signed v / 16777216 % 256)
unfolding extended
half_extended v = (ground arith, ground arith, ground arith, ground arith)

module _ (calls : Calls) (c : Cpu) where
  -- After the test of the lowest byte, and after the test of the two lowest.
  abbrev byte_tested : Cpu
  byte_tested = subtract_with 22 0 0 true c

  abbrev low_tested : Cpu
  low_tested = compare_with (c.regs 22) (c.regs 1) 0 true c

  abbrev half_tested : Cpu
  half_tested =
      compare_with (low_tested.regs 23) (low_tested.regs 1) (bit low_tested.carry) low_tested.zeroed
        low_tested

  byte_reaches :
      (k : ℕ)
      → run calls (suc k) (disassemble (extend_words byte_signed)) 0 c
        ≡ run calls k (disassemble (extend_words byte_signed)) 1 byte_tested
  unfolding run disassemble asm_src_dest asm_branch asm_immediate asm_rjmp extend_words
  byte_reaches k = refl

  half_reaches :
      (k : ℕ)
      → run calls (suc (suc k)) (disassemble (extend_words half_signed)) 0 c
        ≡ run calls k (disassemble (extend_words half_signed)) 2 half_tested
  unfolding run disassemble asm_src_dest asm_branch asm_immediate asm_rjmp extend_words
  half_reaches k = refl

  module _ (v : ℕ) (h : Holds 22 c v) where
    abbrev Extends : Width → Type 0
    Extends width =
        Ends (run calls 10 (disassemble (extend_words width)) 0 c) (length (extend_words width))
          (λ e. Holds 22 e (extended width v) × Keeps c e)

    byte_sign : (byte_tested.regs 22 ≡ v % 256) × (byte_tested.negative ≡ is_high (v % 256))
    byte_sign =
        let e : byte_tested.regs 22 ≡ v % 256 = omega (arith, h.0) in
        (e, ap (λ (x : ℕ). is_high x) e)

    half_sign : c.regs 1 ≡ 0 → half_tested.negative ≡ is_high (v / 256 % 256)
    half_sign z = rw (z, h.1) (ground arith)

    Extends-byte : Extends byte_signed
    unfolding extend_words
    Extends-byte =
        let d : Cpu = byte_tested in
        let (x, n) = byte_sign in
        let (b₀, b₁, b₂, b₃) = byte_extended v in
        let f = ap (λ (y : Bool). fill y) n in
        rw (byte_reaches 9) (
          Ends-map _ 9 _ _
            (λ e (q₀, q₁, q₂, q₃, k). ((q₀ ∙ x ∙ b₀, q₁ ∙ f ∙ b₁, q₂ ∙ f ∙ b₂, q₃ ∙ f ∙ b₃), k))
            (byte_filled calls d.regs d.memory d.stack d.carry d.zeroed d.negative d.sign))

    Extends-half : c.regs 1 ≡ 0 → Extends half_signed
    unfolding extend_words
    Extends-half z =
        let d : Cpu = half_tested in
        let (b₀, b₁, b₂, b₃) = half_extended v in
        let f = ap (λ (y : Bool). fill y) (half_sign z) in
        rw (half_reaches 8) (
          Ends-map _ 8 _ _
            (λ e (q₀, q₁, q₂, q₃, k). ((q₀ ∙ h.0 ∙ b₀, q₁ ∙ h.1 ∙ b₁, q₂ ∙ f ∙ b₂, q₃ ∙ f ∙ b₃), k))
            (half_filled calls d.regs d.memory d.stack d.carry d.zeroed d.negative d.sign))

    Extends-unsigned : (Extends full) × (Extends byte_unsigned) × (Extends half_unsigned)
    unfolding run disassemble asm_src_dest extend_words extended
    Extends-unsigned =
        let x₃ = xor_self (c.regs 23) in
        let x₄ = xor_self (c.regs 24) in
        let x₅ = xor_self (c.regs 25) in
        (
          (refl, (h, (refl, refl, refl, refl, refl, refl, refl))),
          (
            refl,
            (
              (omega (arith, h.0), omega (arith, x₃), omega (arith, x₄), omega (arith, x₅)),
              (refl, refl, refl, refl, refl, refl, refl),
            ),
          ),
          (
            refl,
            (
              (omega (arith, h.0), omega (arith, h.1), omega (arith, x₄), omega (arith, x₅)),
              (refl, refl, refl, refl, refl, refl, refl),
            ),
          ),
        )

    -- For each width of a load, with a loaded number in R22 to R25 and 0 in R1, the words that are
    -- emitted behind the load are `extend_words width`, and this code ends behind them with the
    -- number's low bytes in R22 to R25, zeros or copies of their sign above; the stack, memory, R1
    -- to R3 and Y are kept.
    pub extend_lem :
        (width : Width)
        → c.regs 1 ≡ 0
        → Emits (extend width) (extend_words width) (λ s. s)
          × Ends
              (run calls 10 (disassemble (extend_words width)) 0 c)
              (length (extend_words width))
              (λ e. Holds 22 e (extended width v) × Keeps c e)
    extend_lem full z = (extend-Emits full, Extends-unsigned.0)
    extend_lem byte_unsigned z = (extend-Emits byte_unsigned, Extends-unsigned.1)
    extend_lem half_unsigned z = (extend-Emits half_unsigned, Extends-unsigned.2)
    extend_lem byte_signed z = (extend-Emits byte_signed, Extends-byte)
    extend_lem half_signed z = (extend-Emits half_signed, Extends-half z)
