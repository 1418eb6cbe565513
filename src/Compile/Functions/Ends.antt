-- ===== src/Compile/Functions/Ends.antt =====
-- The loop over a function's instructions in src/compile.c ends.
use wait.Common.{
  ℕ, zero, suc, ◌+◌, ◌-◌, ◌<◌, ◌≤◌, ◌≡◌, ◌∙◌, refl, List, [], ◌∷◌, Result, ok, panic, trap, Bool,
  true, false, ltb, if◌then◌else◌,
}
use wait.Common.{All, ◌==◌, arith, ap, lt→ltb, le→ltb, >>=-eq-ok}
use wait.Common
use native.Mathlib.Decide.{dec_lt}
use wait.Emit.{State}
use wait.Ops.{Emitter}
use wait.Instructions.{Module, Func}
use wait.Instructions.Dispatch.{find_handler, handlers, dispatch, emit_single_instruction}
use wait.Instructions.Control.{block, loop, unreachable, nop, return}
use wait.Compile.Functions.{compile_loop}
use wait.Compile.Functions.Ahead.{Ahead, Ahead-stop, Ahead-if, ahead_rules}
use wait.Compile.Functions.Ahead.Handlers.{control_rules, memory_rules}
use wait.Compile.Functions.Ahead.Arithmetic.{number_rules}

module _ (n : ℕ) where
  find_handler-Ahead :
      (op : ℕ) (hs : List (ℕ × Emitter))
      → All (λ (h : ℕ × Emitter). Ahead n h.1) hs
      → Ahead n (find_handler op hs)
  unfolding find_handler
  find_handler-Ahead op [] all = Ahead-stop n
  find_handler-Ahead op ((code, h) ∷ hs) all =
      Ahead-if n (op == code) h (find_handler op hs) all.0 (find_handler-Ahead op hs all.1)

  handlers-Ahead :
      (m : Module) (index : ℕ) (func : Func) (end : ℕ)
      → All (λ (h : ℕ × Emitter). Ahead n h.1) (handlers m index func end)
  unfolding block loop unreachable nop return
  handlers-Ahead m index func end =
      search (ahead_rules, control_rules, memory_rules, number_rules) parts 60

module _ (m : Module) (index : ℕ) (func : Func) where
  -- An instruction takes a byte at least.
  emit_single_instruction-start :
      (end : ℕ) (s s' : State) (a : Unit {0})
      → emit_single_instruction m index func end s ≡ ok (a, s')
      → s.start + 1 ≤ s'.start
  unfolding emit_single_instruction dispatch
  emit_single_instruction-start end s s' a e =
      (find_handler-Ahead (s.start + 1) (s.writer.rom s.start) (handlers m index func end)
          (handlers-Ahead (s.start + 1) m index func end)).ahead
        (record s { start = s.start + 1 }) (omega arith) a s' e

  -- The loop as the source writes it, without fuel: `Outcome s r` is a run from the state `s` that
  -- ends with the result `r`, after finitely many instructions.
  pub data Outcome : State → Result (Unit {0} × State) → Type 0 where
    done : (s : State) → func.wasm_end ≤ s.start → Outcome s (ok (tt, s))
    round :
        (s t : State) (r : Result (Unit {0} × State))
        → s.start < func.wasm_end
        → emit_single_instruction m index func func.wasm_end s ≡ ok (tt, t)
        → Outcome t r
        → Outcome s r
    stopped :
        (s : State)
        → s.start < func.wasm_end
        → emit_single_instruction m index func func.wasm_end s ≡ panic
        → Outcome s panic
    trapped :
        (s : State)
        → s.start < func.wasm_end
        → emit_single_instruction m index func func.wasm_end s ≡ trap
        → Outcome s trap

  -- The outcome of a round, whatever the instruction does.
  round-Outcome :
      (s : State) (rest : Emitter) (r : Result (Unit {0} × State))
      → emit_single_instruction m index func func.wasm_end s ≡ r
      → s.start < func.wasm_end
      → ((t : State) → r ≡ ok (tt, t) → Outcome t (rest t))
      → Outcome s (Common.◌>>=◌ r (λ q. rest q.1))
  round-Outcome s rest (ok (tt, t)) e h k = round s t (rest t) h e (k t refl)
  round-Outcome s rest panic e h k = stopped s h e
  round-Outcome s rest trap e h k = trapped s h e

  -- From every state, the loop over the instructions of a function ends, and with fuel for one round
  -- more than there are bytes from the cursor to the end of the function `compile_loop` gives its
  -- result.
  pub compile_loop-Outcome :
      (fuel : ℕ) (s : State)
      → func.wasm_end - s.start < fuel
      → Outcome s (compile_loop m index func fuel s)
  unfolding compile_loop
  compile_loop-Outcome zero s h = absurd (omega arith)
  compile_loop-Outcome (suc fuel) s h = elim (dec_lt s.start func.wasm_end) [
    | yes l ↦
        let step : Emitter = emit_single_instruction m index func func.wasm_end in
        rw (lt→ltb s.start func.wasm_end l) (
          round-Outcome s (compile_loop m index func fuel) (step s) refl l (λ t e.
            let further = emit_single_instruction-start func.wasm_end s t tt e in
            compile_loop-Outcome fuel t (omega arith)))
    | no l ↦ rw (le→ltb s.start func.wasm_end (omega arith)) (done s (omega arith))
  ]
