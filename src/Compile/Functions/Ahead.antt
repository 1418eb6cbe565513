-- ===== src/Compile/Functions/Ahead.antt =====
-- The cursor `*start` that the handlers read operands with: what an action may do to it. `Ahead n m`
-- says that `m` does not bring it below n; there is a rule for each way to build an action.
pub mod Readers
pub mod Sequences
pub mod Handlers
pub mod Arithmetic
use wait.Common.{
  ℕ, zero, suc, ◌+◌, ◌*◌, ◌%◌, ◌^◌, ◌≤◌, ◌≡◌, ◌∙◌, refl, Bool, true, false, List, [], ◌∷◌, ◌++◌,
}
use wait.Common.{subst}
use wait.Common.{Result, ok, panic, trap, length, ◌==◌, if◌then◌else◌, arith, >>=-eq-ok, leb}
use wait.Wkreprog
use wait.Emit.{State, M, pure, stop, skip, ◌>>=◌, ◌>>◌, emit, emit2, emit_raw_word, write_buffer}
use wait.Emit.{
  emit_flush_to_flash, rtc_optimise, optimise_loop, optimise_round, word_bytes, rtc_codebuffer_size,
}
use wait.Instructions.{
  lift, get_state, set_state, shrink, grow, repeat, read_operand_u32, read_operand_i32,
  read_operand_i64,
}
use wait.Ops.{Emitter}

pub record Ahead {A : Type 0} (n : ℕ) (m : M A) : Type 0 where
  pub ahead : (s : State) → n ≤ s.start → (a : A) (s' : State) → m s ≡ ok (a, s') → n ≤ s'.start

optimise_round-start : (i : ℕ) (s : State) → (optimise_round i s).start ≡ s.start
unfolding optimise_round
optimise_round-start i s = ground arith

optimise_loop-start : (fuel i : ℕ) (s : State) → (optimise_loop fuel i s).start ≡ s.start
unfolding optimise_loop
optimise_loop-start zero i s = refl
optimise_loop-start (suc fuel) i s =
    ground (arith, optimise_loop-start fuel (i + 1) (optimise_round i s), optimise_round-start i s)

rtc_optimise-start : (s : State) → (rtc_optimise s).start ≡ s.start
unfolding rtc_optimise
rtc_optimise-start s = ground (arith, optimise_loop-start (length s.buffer) 0 s)

write_buffer-start :
    (s s' : State) (a : Unit {0}) → write_buffer s ≡ ok (a, s') → s'.start ≡ s.start
write_buffer-start s s' a e =
    let (w, e1, e2) =
      >>=-eq-ok (Wkreprog.write false (2 * length s.buffer % 2 ^ 16) (word_bytes s.buffer) s.writer)
        _ e in
    cc

flush-start :
    (s s' : State) (a : Unit {0}) → emit_flush_to_flash s ≡ ok (a, s') → s'.start ≡ s.start
unfolding emit_flush_to_flash
flush-start s s' a e =
    ground (arith, write_buffer-start (rtc_optimise s) s' a, rtc_optimise-start s)

raw_word-start :
    (word : ℕ) (s s' : State) (a : Unit {0})
    → emit_raw_word word s ≡ ok (a, s')
    → s'.start ≡ s.start
unfolding emit_raw_word
raw_word-start word s s' a e =
    let t : State = record s { buffer = s.buffer ++ word ∷ []; pc = (s.pc + 2) % 2 ^ 16 } in
    ground (arith, flush-start t s' a)

module _ {A B : Type 0} (n : ℕ) where
  pub Ahead-bind :
      (m : M A) (f : A → M B) → Ahead n m → ((a : A) → Ahead n (f a)) → Ahead n (m >>= f)
  Ahead-bind m f am af = record {
    ahead = λ s h b t e.
        let ((a, s'), e1, e2) = >>=-eq-ok (m s) _ e in
        (af a).ahead s' (am.ahead s h a s' e1) b t e2;
  }

module _ {A : Type 0} (n : ℕ) where
  pub Ahead-then : (m : Emitter) (k : M A) → Ahead n m → Ahead n k → Ahead n (m >> k)
  Ahead-then m k am ak = record {
    ahead = λ s h b t e.
        let ((a, s'), e1, e2) = >>=-eq-ok (m s) _ e in ak.ahead s' (am.ahead s h a s' e1) b t e2;
  }

  pub Ahead-get :
      (f : State → M A) → ((s : State) → n ≤ s.start → Ahead n (f s)) → Ahead n (get_state >>= f)
  Ahead-get f af = record { ahead = λ s h a t e. (af s h).ahead s h a t e }

  pub Ahead-pure : (a : A) → Ahead n (pure a)
  Ahead-pure a = record {
    ahead = λ s h b t e. let same : s ≡ t = cc in subst (λ u. n ≤ u.start) same h;
  }

  pub Ahead-stop : Ahead n (stop {A = A})
  Ahead-stop = record { ahead = λ s h b t e. cc }

  pub Ahead-lift : (r : Result A) → Ahead n (lift r)
  Ahead-lift r = record {
    ahead = λ s h a t e.
        let (b, e1, e2) = >>=-eq-ok r _ e in
        let same : s ≡ t = cc in subst (λ u. n ≤ u.start) same h;
  }

  pub Ahead-if : (b : Bool) (m k : M A) → Ahead n m → Ahead n k → Ahead n (if b then m else k)
  Ahead-if true m k am ak = am
  Ahead-if false m k am ak = ak

module _ (n : ℕ) where
  pub Ahead-skip : Ahead n skip
  Ahead-skip = record {
    ahead = λ s h a t e. let same : s ≡ t = cc in subst (λ u. n ≤ u.start) same h;
  }

  pub Ahead-raw_word : (word : ℕ) → Ahead n (emit_raw_word word)
  Ahead-raw_word word = record { ahead = λ s h a t e. omega (arith, raw_word-start word s t a e) }

  pub Ahead-flush : Ahead n emit_flush_to_flash
  Ahead-flush = record { ahead = λ s h a t e. omega (arith, flush-start s t a e) }

  pub Ahead-set : (s : State) → n ≤ s.start → Ahead n (set_state s)
  Ahead-set s h = record {
    ahead = λ u l a t e. let same : s ≡ t = cc in subst (λ u. n ≤ u.start) same h;
  }

  pub Ahead-shrink : (k : ℕ) → Ahead n (shrink k)
  Ahead-shrink k = record { ahead = λ s h a t e. let same : s.start ≡ t.start = cc in omega arith }

  pub Ahead-grow : (k : ℕ) → Ahead n (grow k)
  Ahead-grow k = record { ahead = λ s h a t e. let same : s.start ≡ t.start = cc in omega arith }

  pub Ahead-emit : (word : ℕ) → Ahead n (emit word)
  unfolding emit
  Ahead-emit word = Ahead-raw_word (word % 2 ^ 16)

  pub Ahead-emit2 : (v w : ℕ) → Ahead n (emit2 v w)
  unfolding emit2
  Ahead-emit2 v w = search (Ahead-then, Ahead-raw_word)

  pub Ahead-repeat : (k : ℕ) (m : Emitter) → Ahead n m → Ahead n (repeat k m)
  Ahead-repeat zero m am = Ahead-skip
  Ahead-repeat (suc k) m am = search (Ahead-then, Ahead-repeat k m)

pub ruleset ahead_rules = (
  Ahead-bind, Ahead-then, Ahead-get, Ahead-pure, Ahead-stop, Ahead-lift, Ahead-if, Ahead-skip,
  Ahead-raw_word, Ahead-flush, Ahead-set, Ahead-shrink, Ahead-grow, Ahead-emit, Ahead-emit2,
  Ahead-repeat,
)
