-- ===== src/Ops/Words.antt =====
-- Which words a sequence of emissions adds, and that sequences compose.
use wait.Asm
use wait.Asm.{asm_single_reg, asm_src_dest, asm_immediate}
use wait.Common.{ℕ, ◌+◌, ◌-◌, ◌%◌, ◌^◌, ◌≡◌, refl, List, [], ◌∷◌, Result, ok, panic, trap}
use wait.Common
use wait.Emit.{State, ◌>>◌, skip, emit, emit2}
use wait.Ops.{Emitter}

-- Emits each word in turn.
unfoldable pub emit_all : List ℕ → Emitter
emit_all [] = skip
emit_all (w ∷ ws) = do emit w; emit_all ws

-- The emissions are these words, and then the state changes by `f`.
abbrev pub Emits : Emitter → List ℕ → (State → State) → Type 0
Emits m ws f = (s : State) → m s ≡ Common.◌>>=◌ (emit_all ws s) (λ r. ok (tt, f r.1))

pub bind_assoc {ℓ κ μ} :
    {A : Type ℓ} {B : Type κ} {C : Type μ} (r : Result A) (f : A → Result B) (g : B → Result C)
    → Common.◌>>=◌ (Common.◌>>=◌ r f) g ≡ Common.◌>>=◌ r (λ a. Common.◌>>=◌ (f a) g)
bind_assoc (ok a) f g = refl
bind_assoc panic f g = refl
bind_assoc trap f g = refl

pub bind_unit {ℓ} :
    {S : Type ℓ} (r : Result (Unit {0} × S)) → Common.◌>>=◌ r (λ q. ok (tt, q.1)) ≡ r
bind_unit (ok a) = refl
bind_unit panic = refl
bind_unit trap = refl

pub emit2_words : (v w : ℕ) (s : State) → emit2 v w s ≡ Common.◌>>=◌ (emit v s) (λ r. emit w r.1)
unfolding emit emit2
emit2_words v w s = refl

-- The words of the sequences that the handlers share.
abbrev pub pop_32 : ℕ → List ℕ → List ℕ
pop_32 r ws =
    asm_single_reg Asm.opcode_pop (r + 0)
    ∷ asm_single_reg Asm.opcode_pop (r + 1)
    ∷ asm_single_reg Asm.opcode_pop (r + 2)
    ∷ asm_single_reg Asm.opcode_pop (r + 3)
    ∷ ws

abbrev pub push_32 : ℕ → List ℕ → List ℕ
push_32 r ws =
    asm_single_reg Asm.opcode_push (r + 3)
    ∷ asm_single_reg Asm.opcode_push (r + 2)
    ∷ asm_single_reg Asm.opcode_push (r + 1)
    ∷ asm_single_reg Asm.opcode_push (r + 0)
    ∷ ws

abbrev pub bytewise_words : ℕ → ℕ → ℕ → ℕ → List ℕ → List ℕ
bytewise_words first next dest src ws =
    asm_src_dest first dest src
    ∷ asm_src_dest next (dest + 1) (src + 1)
    ∷ asm_src_dest next (dest + 2) (src + 2)
    ∷ asm_src_dest next (dest + 3) (src + 3)
    ∷ ws

abbrev pub load_words : ℕ → ℕ → ℕ → ℕ → List ℕ → List ℕ
load_words k₀ k₁ k₂ k₃ ws =
    asm_immediate Asm.opcode_ldi 22 k₀
    ∷ asm_immediate Asm.opcode_ldi 23 k₁
    ∷ asm_immediate Asm.opcode_ldi 24 k₂
    ∷ asm_immediate Asm.opcode_ldi 25 k₃
    ∷ ws

-- `ts.stack_top -= n` and `ts.stack_top += n`.
abbrev pub shrunk : ℕ → State → State
shrunk n s = record s { stack_top = (s.stack_top + 2 ^ 16 - n) % 2 ^ 16 }

abbrev pub grown : ℕ → State → State
grown n s = record s { stack_top = (s.stack_top + n) % 2 ^ 16 }
