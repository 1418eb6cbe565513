-- ===== src/Instructions/Control/Unwind.antt =====
-- How `br` and `br_if` of src/instructions.c restore the stack before they jump, and how far `br_if`
-- skips when it does not.
use wait.Common.{ℕ, zero, suc, ◌+◌, ◌-◌, ◌*◌, ◌%◌, ◌^◌, ◌≡◌, refl, List, [], ◌∷◌, length, arith}
use wait.Common.{ne→==, lt→ltb}
use wait.Asm
use wait.Asm.{asm_single_reg, asm_word_immediate, asm_in, asm_out}
use wait.Ops.{emit_x_pop_32bit}
use wait.Ops.Words.{emit_all, Emits, bind_assoc, bind_unit, pop_32}
use wait.Instructions.Control.{unwind, skip_distance}

-- The words for `n` values above the target's height.
unfoldable pub unwind_words : ℕ → List ℕ
unwind_words zero = []
unwind_words (suc zero) = pop_32 22 []
unwind_words (suc (suc zero)) = pop_32 22 (pop_32 18 [])
unwind_words (suc (suc (suc n))) = pop_32 22 (
    asm_in 26 0x3d
    ∷ asm_in 27 0x3e
    ∷ asm_word_immediate Asm.opcode_adiw 26 ((suc (suc (suc n)) - 1) * 4 % 2 ^ 16)
    ∷ asm_out 0x3e 27
    ∷ asm_out 0x3d 26
    ∷ [])

unwind-Emits : (n : ℕ) → Emits (unwind n) (unwind_words n) (λ s. s)
unfolding unwind unwind_words emit_x_pop_32bit emit_all
unwind-Emits zero s = simp bind_unit
unwind-Emits (suc zero) s = simp (bind_assoc, bind_unit)
unwind-Emits (suc (suc zero)) s = simp (bind_assoc, bind_unit)
unwind-Emits (suc (suc (suc n))) s =
    let m : ℕ = suc (suc (suc n)) in
    rw (ne→== m 1 (λ e. omega arith), ne→== m 2 (λ e. omega arith), lt→ltb 2 m (omega arith))
      (simp (bind_assoc, bind_unit))

-- For every number n of values above the target's height, the words that `br` and `br_if` emit to
-- restore the stack are `unwind_words n`, and the offset over which `br_if` skips is their bytes and
-- the four bytes of the jump.
pub skip_distance_lem :
    (n : ℕ)
    → Emits (unwind n) (unwind_words n) (λ s. s)
      × (skip_distance n ≡ 2 * (length (unwind_words n) + 2))
unfolding skip_distance unwind_words
skip_distance_lem zero = (unwind-Emits zero, refl)
skip_distance_lem (suc zero) = (unwind-Emits 1, refl)
skip_distance_lem (suc (suc zero)) = (unwind-Emits 2, refl)
skip_distance_lem (suc (suc (suc n))) = (unwind-Emits (suc (suc (suc n))), ground arith)
