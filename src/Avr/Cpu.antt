-- ===== src/Avr/Cpu.antt =====
-- Running decoded code: registers, four status flags, the stack as its bytes (top first), and the
-- other data memory. A call runs a parameter, since what is called is code outside the fragment.
use wait.Common.{ℕ, zero, suc, ◌+◌, ◌-◌, ◌*◌, ◌/◌, ◌%◌, bit_and, bit_or, bit_xor}
use wait.Common.{Bool, true, false, not, ◌&&◌, List, [], ◌∷◌, Option, none, some}
use wait.Common.{◌≡◌, ◌==◌, ltb, leb, if◌then◌else◌, get_elem?}
use wait.Avr.{Instr, add, adc, sub, sbc, and_, or_, eor, cp, cpc, movw, ldi, subi, adiw, sbiw}
use wait.Avr.{push, pop, lsr, ror, asr, dec, brbs, brbc, rjmp, ldd, std, call}

pub record Cpu : Type 0 where
  pub regs : ℕ → ℕ
  pub carry : Bool
  pub zeroed : Bool
  pub negative : Bool
  pub sign : Bool
  pub stack : List ℕ
  pub memory : ℕ → ℕ

abbrev pub write : (ℕ → ℕ) → ℕ → ℕ → ℕ → ℕ
write f p v q = if q == p then v else f q

abbrev pub bit : Bool → ℕ
bit true = 1
bit false = 0

abbrev pub differs : Bool → Bool → Bool
differs true b = not b
differs false b = b

abbrev pub is_high : ℕ → Bool
is_high x = leb 128 x

-- Rd <- Rd + Rr + carry in.
abbrev pub add_with : ℕ → ℕ → ℕ → Cpu → Cpu
add_with d b cin c =
    let a = c.regs d in
    let r = (a + b + cin) % 256 in
    let v = not (differs (is_high a) (is_high b)) && differs (is_high a) (is_high r) in
    record c {
      regs = write c.regs d r;
      carry = leb 256 (a + b + cin);
      zeroed = r == 0;
      negative = is_high r;
      sign = differs (is_high r) v;
    }

-- The flags of a - b - borrow; `z` is what the zero flag is joined with.
abbrev pub compare_with : ℕ → ℕ → ℕ → Bool → Cpu → Cpu
compare_with a b cin z c =
    let r = (a + 256 - b - cin) % 256 in
    let v = differs (is_high a) (is_high b) && differs (is_high a) (is_high r) in
    record c {
      carry = ltb a (b + cin);
      zeroed = (r == 0) && z;
      negative = is_high r;
      sign = differs (is_high r) v;
    }

abbrev pub subtract_with : ℕ → ℕ → ℕ → Bool → Cpu → Cpu
subtract_with d b cin z c =
    let c' = compare_with (c.regs d) b cin z c in
    record c' { regs = write c.regs d ((c.regs d + 256 - b - cin) % 256) }

-- Logic, and the decrement: the carry stays and there is no overflow.
abbrev pub logic : ℕ → ℕ → Cpu → Cpu
logic d r c = record c {
  regs = write c.regs d r;
  zeroed = r == 0;
  negative = is_high r;
  sign = is_high r;
}

abbrev pub decrement : ℕ → Cpu → Cpu
decrement d c =
    let r = (c.regs d + 255) % 256 in
    record c {
      regs = write c.regs d r;
      zeroed = r == 0;
      negative = is_high r;
      sign = differs (is_high r) (r == 127);
    }

-- Shifting right: the new top bit comes in, the lowest bit goes to the carry.
abbrev pub shift_right : ℕ → ℕ → Cpu → Cpu
shift_right d top c =
    let a = c.regs d in
    let r = a / 2 + top * 128 in
    record c {
      regs = write c.regs d r;
      carry = a % 2 == 1;
      zeroed = r == 0;
      negative = is_high r;
      sign = differs (is_high r) (differs (is_high r) (a % 2 == 1));
    }

-- Register pairs, low byte first.
abbrev pub pair : (ℕ → ℕ) → ℕ → ℕ
pair f d = f d + f (d + 1) * 256

abbrev pub write_pair : (ℕ → ℕ) → ℕ → ℕ → ℕ → ℕ
write_pair f d v = write (write f d (v % 256)) (d + 1) (v / 256 % 256)

abbrev pub word_result : ℕ → ℕ → Bool → Bool → Cpu → Cpu
word_result d v carried v_flag c = record c {
  regs = write_pair c.regs d v;
  carry = carried;
  zeroed = v == 0;
  negative = leb 32768 v;
  sign = differs (leb 32768 v) v_flag;
}

abbrev pub flag : ℕ → Cpu → Bool
flag s c =
    if s == 0
    then c.carry
    else (if s == 1 then c.zeroed else (if s == 2 then c.negative else c.sign))

-- A signed displacement of `k` words out of `2 * half`.
abbrev pub jump_by : ℕ → ℕ → ℕ → ℕ
jump_by half pc k = if ltb k half then pc + 1 + k else pc + 1 + k - 2 * half

abbrev pub pointer : ℕ → (ℕ → ℕ) → ℕ
pointer y f = if y == 1 then pair f 28 else pair f 30

-- What a call does to the processor, by its target.
abbrev pub Calls : Type 0
Calls = ℕ → Cpu → Cpu

-- One instruction: the next position in the code and the new state; `none` where the model stops
-- (an empty stack, a jump out of the fragment, the stack pointer's ports).
abbrev pub step : Calls → Instr → ℕ → Cpu → Option (ℕ × Cpu)
step calls (add d r) pc c = some (pc + 1, add_with d (c.regs r) 0 c)
step calls (adc d r) pc c = some (pc + 1, add_with d (c.regs r) (bit c.carry) c)
step calls (sub d r) pc c = some (pc + 1, subtract_with d (c.regs r) 0 true c)
step calls (sbc d r) pc c = some (pc + 1, subtract_with d (c.regs r) (bit c.carry) c.zeroed c)
step calls (and_ d r) pc c = some (pc + 1, logic d (bit_and (c.regs d) (c.regs r)) c)
step calls (or_ d r) pc c = some (pc + 1, logic d (bit_or (c.regs d) (c.regs r)) c)
step calls (eor d r) pc c = some (pc + 1, logic d (bit_xor (c.regs d) (c.regs r)) c)
step calls (cp d r) pc c = some (pc + 1, compare_with (c.regs d) (c.regs r) 0 true c)
step calls (cpc d r) pc c =
    some (pc + 1, compare_with (c.regs d) (c.regs r) (bit c.carry) c.zeroed c)
step calls (movw d r) pc c =
    some (pc + 1, record c { regs = write (write c.regs d (c.regs r)) (d + 1) (c.regs (r + 1)) })
step calls (ldi d k) pc c = some (pc + 1, record c { regs = write c.regs d k })
step calls (subi d k) pc c = some (pc + 1, subtract_with d k 0 true c)
step calls (adiw d k) pc c =
    let a = pair c.regs d in
    some (
      pc + 1,
      word_result d ((a + k) % 65536) (leb 65536 (a + k))
          (ltb a 32768 && leb 32768 ((a + k) % 65536)) c,
    )
step calls (sbiw d k) pc c =
    let a = pair c.regs d in
    some (
      pc + 1,
      word_result d ((a + 65536 - k) % 65536) (ltb a k)
          (leb 32768 a && ltb ((a + 65536 - k) % 65536) 32768) c,
    )
step calls (push r) pc c = some (pc + 1, record c { stack = c.regs r ∷ c.stack })
step calls (pop r) pc c = elim c.stack [
  | [] ↦ none
  | v ∷ rest ↦ some (pc + 1, record c { regs = write c.regs r v; stack = rest })
]
step calls (lsr d) pc c = some (pc + 1, shift_right d 0 c)
step calls (ror d) pc c = some (pc + 1, shift_right d (bit c.carry) c)
step calls (asr d) pc c = some (pc + 1, shift_right d (c.regs d / 128) c)
step calls (dec d) pc c = some (pc + 1, decrement d c)
step calls (brbs s k) pc c = some (if flag s c then jump_by 64 pc k else pc + 1, c)
step calls (brbc s k) pc c = some (if flag s c then pc + 1 else jump_by 64 pc k, c)
step calls (rjmp k) pc c = some (jump_by 2048 pc k, c)
step calls (ldd r y q) pc c =
    some (pc + 1, record c { regs = write c.regs r (c.memory (pointer y c.regs + q)) })
step calls (std r y q) pc c =
    some (pc + 1, record c { memory = write c.memory (pointer y c.regs + q) (c.regs r) })
step calls (call a) pc c = some (pc + 2, calls a c)
step calls _ pc c = none

-- Runs until the end of the code is reached.
unfoldable pub run : Calls → ℕ → List Instr → ℕ → Cpu → Option (ℕ × Cpu)
run calls zero code pc c = none
run calls (suc fuel) code pc c = elim (get_elem? code pc) [
  | none ↦ some (pc, c)
  | some i ↦ elim (step calls i pc c) [ none ↦ none | some (pc', c') ↦ run calls fuel code pc' c' ]
]

-- A run that ended at a position in a state of which `P` holds.
abbrev pub Ends : Option (ℕ × Cpu) → ℕ → (Cpu → Type 0) → Type 0
Ends none n P = ⊥
Ends (some (pc, c)) n P = (pc ≡ n) × P c

-- A 32-bit number on the stack, low byte on top.
abbrev pub bytes32 : ℕ → List ℕ → List ℕ
bytes32 v rest = (v % 256) ∷ (v / 256 % 256) ∷ (v / 65536 % 256) ∷ (v / 16777216 % 256) ∷ rest

-- Four registers from `r` on, low byte first.
abbrev pub put_32 : (ℕ → ℕ) → ℕ → ℕ → ℕ → ℕ
put_32 f r v =
    write (write (write (write f r (v % 256)) (r + 1) (v / 256 % 256)) (r + 2) (v / 65536 % 256))
      (r + 3) (v / 16777216 % 256)

-- What a handler's code does: the stack it leaves, with the other memory, the zero register, the
-- base of the linear memory (R2, R3) and the frame pointer Y unchanged.
abbrev pub Leaves : List ℕ → Cpu → Cpu → Type 0
Leaves left c c' =
    (c'.stack ≡ left)
    × (c'.memory ≡ c.memory)
    × (c'.regs 1 ≡ c.regs 1)
    × (c'.regs 2 ≡ c.regs 2)
    × (c'.regs 3 ≡ c.regs 3)
    × (c'.regs 28 ≡ c.regs 28)
    × (c'.regs 29 ≡ c.regs 29)
