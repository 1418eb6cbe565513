-- ===== src/Ops/Progress.antt =====
-- Emitting a whole sequence of words succeeds where the region has room for it.
use wait.Common.{ℕ, ◌+◌, ◌*◌, ◌%◌, ◌^◌, ◌≤◌, ◌≡◌, refl, ◌∙◌, List, [], ◌∷◌, length, arith, ok}
use wait.Emit.{State, emit}
use wait.Emit.Position.{IsReady, Moves, code_end, emit_raw_word_lem}
use wait.Ops.Words.{emit_all}

-- A run of `n` bytes of code from `s` to `s'`.
abbrev pub Emitted : ℕ → State → State → Type 0
Emitted n s s' =
    IsReady s'
    × (code_end s' ≤ code_end s + n)
    × (s'.writer.end_of_safe_region ≡ s.writer.end_of_safe_region)
    × Moves s s'

-- Emitting a list of words from a ready state succeeds where the safe region has room for all of
-- them; the new state is ready, the end of the code grows by their bytes at most, the region stays,
-- and the pc and the end of the code move together modulo 2 ^ 16.
pub emit_all_lem :
    (ws : List ℕ) (s : State)
    → IsReady s
    → code_end s + 2 * length ws ≤ s.writer.end_of_safe_region
    → (s' : State) × (emit_all ws s ≡ ok (tt, s')) × Emitted (2 * length ws) s s'
unfolding emit_all emit
emit_all_lem [] s r room = (s, refl, (r, omega arith, refl, refl))
emit_all_lem (w ∷ ws) s r room =
    let (t, e, ready, below, region, moves) = emit_raw_word_lem (w % 2 ^ 16) s r (omega arith) in
    let (s', e', (ready', below', region', moves')) = emit_all_lem ws t ready (omega arith) in
    (s', rw e e', (ready', omega arith, region' ∙ region, omega arith))
