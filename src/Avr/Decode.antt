-- ===== src/Avr/Decode.antt =====
-- The encoders of src/asm.c write what the processor reads: decoding each word gives the
-- instruction with the operands that it was made from.
use wait.Common.{ℕ, ◌+◌, ◌*◌, ◌/◌, ◌%◌, ◌≤◌, ◌<◌, ◌≡◌, refl, ap, ◌∙◌, ◌⊎◌, inl, inr, arith}
use wait.Common.{bit_and_low, bit_and_high}
use mathlib.Core.Path.{ap₂}
use native.Mathlib.Decide.{dec_lt}
use wait.Asm
use wait.Asm.{asm_single_reg, asm_src_dest, asm_immediate, asm_ldd, asm_std, make_ldd_std_offset}
use wait.Avr.{decode_registers, decode_displacement}
use wait.Avr.{Instr, decode, add, adc, sub, sbc, and_, or_, eor, cp, cpc, push, pop, lsr, ror, asr}
use wait.Avr.{dec, ldi, subi, ldd, std}

low_pages : (w : ℕ) → w < 12288 → decode w ≡ decode_registers (w / 1024) w
unfolding decode
low_pages w h = ground arith

-- The fields of a word with two registers; `g` is the opcode's group.
module _ (g d r : ℕ) (hg : g < 12) (hd : d < 32) (hr : r < 32) where
  src_dest_word : asm_src_dest (g * 1024) d r ≡ g * 1024 + r / 16 * 512 + d * 16 + r % 16
  unfolding asm_src_dest
  src_dest_word =
      omega (arith, bit_and_low 4 r 15 refl, bit_and_high 4 r 1, bit_and_low 1 (r / 16) 1 refl)

  decode_group :
      decode (asm_src_dest (g * 1024) d r) ≡ decode_registers g (asm_src_dest (g * 1024) d r)
  decode_group =
      let e : asm_src_dest (g * 1024) d r / 1024 ≡ g = omega (arith, src_dest_word) in
      low_pages _ (omega (arith, src_dest_word))
      ∙ ap (λ k. decode_registers k (asm_src_dest (g * 1024) d r)) e

  dest_field : asm_src_dest (g * 1024) d r / 16 % 32 ≡ d
  dest_field = omega (arith, src_dest_word)

  src_field : asm_src_dest (g * 1024) d r % 16 + asm_src_dest (g * 1024) d r / 512 % 2 * 16 ≡ r
  src_field = omega (arith, src_dest_word)

  with_registers :
      (f : ℕ → ℕ → Instr)
      → decode_registers g (asm_src_dest (g * 1024) d r)
        ≡ f
            (asm_src_dest (g * 1024) d r / 16 % 32)
            (asm_src_dest (g * 1024) d r % 16 + asm_src_dest (g * 1024) d r / 512 % 2 * 16)
      → decode (asm_src_dest (g * 1024) d r) ≡ f d r
  with_registers f e = decode_group ∙ e ∙ ap₂ f dest_field src_field

-- For register numbers d and r below 32, the words for ADD, ADC, SUB, SBC, AND, OR, EOR, CP and CPC
-- decode to that instruction on d and r.
pub decode-src_dest :
    (d r : ℕ)
    → d < 32
    → r < 32
    → (decode (asm_src_dest Asm.opcode_add d r) ≡ add d r)
      × (decode (asm_src_dest Asm.opcode_adc d r) ≡ adc d r)
      × (decode (asm_src_dest Asm.opcode_sub d r) ≡ sub d r)
      × (decode (asm_src_dest Asm.opcode_sbc d r) ≡ sbc d r)
      × (decode (asm_src_dest Asm.opcode_and d r) ≡ and_ d r)
      × (decode (asm_src_dest Asm.opcode_or d r) ≡ or_ d r)
      × (decode (asm_src_dest Asm.opcode_eor d r) ≡ eor d r)
      × (decode (asm_src_dest Asm.opcode_cp d r) ≡ cp d r)
      × (decode (asm_src_dest Asm.opcode_cpc d r) ≡ cpc d r)
decode-src_dest d r hd hr = (
  with_registers 3 d r (omega arith) hd hr add refl,
  with_registers 7 d r (omega arith) hd hr adc refl,
  with_registers 6 d r (omega arith) hd hr sub refl,
  with_registers 2 d r (omega arith) hd hr sbc refl,
  with_registers 8 d r (omega arith) hd hr and_ refl,
  with_registers 10 d r (omega arith) hd hr or_ refl,
  with_registers 9 d r (omega arith) hd hr eor refl,
  with_registers 5 d r (omega arith) hd hr cp refl,
  with_registers 1 d r (omega arith) hd hr cpc refl,
)

module _ (d : ℕ) (hd : d < 32) where
  -- For a register below 32, the words for PUSH, POP, LSR, ROR, ASR and DEC decode to that
  -- instruction on it.
  pub decode-single_reg :
      (decode (asm_single_reg Asm.opcode_push d) ≡ push d)
      × (decode (asm_single_reg Asm.opcode_pop d) ≡ pop d)
      × (decode (asm_single_reg Asm.opcode_lsr d) ≡ lsr d)
      × (decode (asm_single_reg Asm.opcode_ror d) ≡ ror d)
      × (decode (asm_single_reg Asm.opcode_asr d) ≡ asr d)
      × (decode (asm_single_reg Asm.opcode_dec d) ≡ dec d)
  unfolding decode asm_single_reg
  decode-single_reg =
      (ground arith, ground arith, ground arith, ground arith, ground arith, ground arith)

module _ (d k : ℕ) (low : 16 ≤ d) (hd : d < 32) (hk : k < 256) where
  -- For a register from 16 to 31 and a byte, the words for LDI and SUBI decode to that instruction
  -- with both operands.
  pub decode-immediate :
      (decode (asm_immediate Asm.opcode_ldi d k) ≡ ldi d k)
      × (decode (asm_immediate Asm.opcode_subi d k) ≡ subi d k)
  unfolding decode asm_immediate
  decode-immediate =
      let f₀ = bit_and_low 4 (k % 256) 15 refl in
      let f₁ = bit_and_high 4 (k % 256) 15 in
      let f₂ = bit_and_low 4 (k % 256 / 16) 15 refl in (ground arith, ground arith)

high_pages :
    (w : ℕ) → (w / 4096 ≡ 8) ⊎ (w / 4096 ≡ 10) → decode w ≡ decode_displacement (w / 512 % 2) w
unfolding decode
high_pages w (inl h) = rw h
high_pages w (inr h) = rw h

-- The fields of a load (`store` is 0) or a store (1) with a displacement.
module _ (store d y q : ℕ) (hs : store < 2) (hd : d < 32) (hy : y < 2) (hq : q < 64) where
  abbrev displacement_word : ℕ
  displacement_word =
      0x8000 + q / 32 * 8192 + q / 8 % 4 * 1024 + store * 512 + d * 16 + y * 8 + q % 8

  offset_field : make_ldd_std_offset q ≡ q % 8 + q / 8 % 4 * 1024 + q / 32 * 8192
  offset_field = omega (
    arith,
    bit_and_low 3 q 7 refl,
    bit_and_high 3 q 3,
    bit_and_low 2 (q / 8) 3 refl,
    bit_and_high 5 q 1,
    bit_and_low 1 (q / 32) 1 refl,
  )

  displacement_page : (displacement_word / 4096 ≡ 8) ⊎ (displacement_word / 4096 ≡ 10)
  displacement_page = elim (dec_lt q 32) [ yes h ↦ inl (omega arith) | no h ↦ inr (omega arith) ]

  reg_field : displacement_word / 16 % 32 ≡ d
  reg_field = omega arith

  pointer_field : displacement_word / 8 % 2 ≡ y
  pointer_field = omega arith

  q_field :
      displacement_word % 8 + displacement_word / 1024 % 4 * 8 + displacement_word / 8192 % 2 * 32
      ≡ q
  q_field = omega arith

  store_field : displacement_word / 512 % 2 ≡ store
  store_field = omega arith

read_load :
    (w d y q : ℕ)
    → (w / 4096 ≡ 8) ⊎ (w / 4096 ≡ 10)
    → w / 512 % 2 ≡ 0
    → w / 16 % 32 ≡ d
    → w / 8 % 2 ≡ y
    → w % 8 + w / 1024 % 4 * 8 + w / 8192 % 2 * 32 ≡ q
    → decode w ≡ ldd d y q
read_load w d y q page s e f g = high_pages w page ∙ rw (s, e, f, g)

read_store :
    (w d y q : ℕ)
    → (w / 4096 ≡ 8) ⊎ (w / 4096 ≡ 10)
    → w / 512 % 2 ≡ 1
    → w / 16 % 32 ≡ d
    → w / 8 % 2 ≡ y
    → w % 8 + w / 1024 % 4 * 8 + w / 8192 % 2 * 32 ≡ q
    → decode w ≡ std d y q
read_store w d y q page s e f g = high_pages w page ∙ rw (s, e, f, g)

module _ (d y q : ℕ) (hd : d < 32) (hy : y < 2) (hq : q < 64) where
  ldd_word : asm_ldd d y q ≡ displacement_word 0 d y q (omega arith) hd hy hq
  unfolding asm_ldd
  ldd_word = omega (arith, offset_field 0 d y q (omega arith) hd hy hq)

  std_word : asm_std d y q ≡ displacement_word 1 d y q (omega arith) hd hy hq
  unfolding asm_std
  std_word = omega (arith, offset_field 1 d y q (omega arith) hd hy hq)

  -- For a register below 32, Z (0) or Y (1) and a displacement below 64, the words for LDD and STD
  -- decode to that load and that store.
  pub decode-displacement :
      (decode (asm_ldd d y q) ≡ ldd d y q) × (decode (asm_std d y q) ≡ std d y q)
  decode-displacement = (
    rw ldd_word (
        read_load _ d y q (displacement_page 0 d y q (omega arith) hd hy hq) (omega arith)
          (omega arith) (omega arith) (omega arith)),
    rw std_word (
        read_store _ d y q (displacement_page 1 d y q (omega arith) hd hy hq) (omega arith)
          (omega arith) (omega arith) (omega arith)),
  )
