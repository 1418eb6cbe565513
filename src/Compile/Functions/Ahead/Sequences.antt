-- ===== src/Compile/Functions/Ahead/Sequences.antt =====
-- The sequences of src/asm.c that the handlers share, and the functions that make parts of handlers.
use wait.Common.{ℕ, zero, suc, ◌+◌, ◌-◌}
use wait.Ops.{
  emit_x_push_32bit, emit_x_pop_32bit, emit_x_pop_16bit, push_up, pop_down, emit_x_call_save,
  emit_x_call_restore, emit_local_init, emit_local_deinit,
}
use wait.Compile.Functions.Ahead.{Ahead, Ahead-skip, Ahead-then, Ahead-emit, ahead_rules}

module _ (n : ℕ) where
  pub Ahead-push_32 : (r : ℕ) → Ahead n (emit_x_push_32bit r)
  unfolding emit_x_push_32bit
  Ahead-push_32 r = search (ahead_rules) depth 9

  pub Ahead-pop_32 : (r : ℕ) → Ahead n (emit_x_pop_32bit r)
  unfolding emit_x_pop_32bit
  Ahead-pop_32 r = search (ahead_rules) depth 9

  pub Ahead-pop_16 : (r : ℕ) → Ahead n (emit_x_pop_16bit r)
  unfolding emit_x_pop_16bit
  Ahead-pop_16 r = search (ahead_rules) depth 9

  push_up-Ahead : (k i : ℕ) → Ahead n (push_up k i)
  unfolding push_up
  push_up-Ahead zero i = Ahead-skip n
  push_up-Ahead (suc k) i = Ahead-then n _ _ (Ahead-emit n _) (push_up-Ahead k (i + 1))

  pop_down-Ahead : (k i : ℕ) → Ahead n (pop_down k i)
  unfolding pop_down
  pop_down-Ahead zero i = Ahead-skip n
  pop_down-Ahead (suc k) i = Ahead-then n _ _ (Ahead-emit n _) (pop_down-Ahead k (i - 1))

  pub Ahead-save : Ahead n emit_x_call_save
  unfolding emit_x_call_save
  Ahead-save = push_up-Ahead 16 2

  pub Ahead-restore : Ahead n emit_x_call_restore
  unfolding emit_x_call_restore
  Ahead-restore = pop_down-Ahead 16 17

  pub Ahead-local_init : (bytes : ℕ) → Ahead n (emit_local_init bytes)
  unfolding emit_local_init
  Ahead-local_init bytes = search (ahead_rules) depth 20

  pub Ahead-local_deinit : (bytes : ℕ) → Ahead n (emit_local_deinit bytes)
  unfolding emit_local_deinit
  Ahead-local_deinit bytes = search (ahead_rules) depth 20

pub ruleset sequence_rules = (
  Ahead-push_32, Ahead-pop_32, Ahead-pop_16, Ahead-save, Ahead-restore, Ahead-local_init,
  Ahead-local_deinit,
)
