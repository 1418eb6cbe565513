-- ===== src/Compile/Refill/Resolved.antt =====
-- src/compile.c: what the second pass over the compiled code, `branch_pc_refill`, leaves in the
-- program memory.
use wait.Common.{
  ℕ, zero, suc, ◌+◌, ◌*◌, ◌/◌, ◌%◌, ◌^◌, ◌≤◌, ◌<◌, ◌≡◌, refl, sym, ap, ◌∙◌, subst, ◌⊎◌, inl, inr,
  arith,
}
use wait.Common.{List, [], ◌∷◌, length, length-append, ok, All, lt→ltb, le→ltb}
use native.Mathlib.Decide.{dec_lt}
use wait.Emit.{State, emit_flush_to_flash}
use wait.Wkreprog.{Writer, spm_pagesize, get_raw_position, open_raw, close}
use wait.Wkreprog.Pages.{view, open_raw-IsOpen, view-open_raw}
use wait.Wkreprog.View.{rom-close}
use wait.Parse.{WasmFunction}
use wait.Compile.{
  Compiler, compile_open, compile_close, set_start_of_next_method, with_writer,
  end_of_compiled_code_space,
}
use wait.Compile.Refill.{refill_round, refill_loop, refill_fuel, branch_pc_refill}
use wait.Compile.Refill.Round.{
  IsReady, Steps, Item, words_before, words_after, HoldsWords, Resolves, round_lem,
}
use wait.Compile.Refill.Words.{
  all_before, all_after, length-after, some_words, HoldsWords-split, HoldsWords-join,
  HoldsWords-same, Steps-none, Steps-trans,
}

module _ (code_space : ℕ) (embed_address : ℕ → ℕ) (function_list : List WasmFunction) where
  abbrev pub AllResolve : List ℕ → List Item → Type 0
  AllResolve block_pc = All (Resolves code_space embed_address function_list block_pc)

  -- What the rounds behind leave alone, and what they write.
  join-after :
      (it : Item) (its : List Item) (t s' : State) (at : ℕ) {k : ℕ}
      → get_raw_position t.writer ≡ at + 2 * length (words_before it)
      → HoldsWords (view t.writer) at (words_after code_space it)
      → Steps k t s'
      → HoldsWords (view s'.writer) (get_raw_position t.writer) (all_after code_space its)
      → HoldsWords (view s'.writer) at (all_after code_space (it ∷ its))
  join-after it its t s' at moved now steps later =
      let l = length-after code_space it in
      let next : get_raw_position t.writer ≡ at + 2 * length (words_after code_space it) =
        omega arith in
      HoldsWords-join (view s'.writer) at (words_after code_space it) (all_after code_space its)
        (HoldsWords-same (view t.writer) (view s'.writer) at (words_after code_space it)
          (λ a h h'. steps.before a (omega arith)) now)
        (subst (λ p. HoldsWords (view s'.writer) p (all_after code_space its)) next later)

  loop_step :
      (fuel pc prev_pc : ℕ) (s t : State) (q : ℕ)
      → pc < prev_pc
      → refill_round code_space embed_address function_list pc s ≡ ok (q, t)
      → refill_loop code_space embed_address function_list (suc fuel) prev_pc pc s
        ≡ refill_loop code_space embed_address function_list fuel prev_pc q t
  unfolding refill_loop
  loop_step fuel pc prev_pc s t q h e = rw (lt→ltb pc prev_pc h, e) refl

  refill_loop_lem :
      (fuel : ℕ) (its : List Item) (s : State) (pc prev_pc : ℕ)
      → IsReady s
      → code_space + pc ≡ get_raw_position s.writer
      → pc + 2 * length (all_before its) ≡ prev_pc
      → prev_pc < 2 ^ 16
      → length its < fuel
      → AllResolve s.block_pc its
      → HoldsWords (view s.writer) (get_raw_position s.writer) (all_before its)
      → get_raw_position s.writer + 2 * length (all_before its) ≤ s.writer.end_of_safe_region
      → (s' : State) × (refill_loop code_space embed_address function_list fuel prev_pc pc s
          ≡ ok (tt, s'))
        × Steps (2 * length (all_before its)) s s'
        × HoldsWords (view s'.writer) (get_raw_position s.writer) (all_after code_space its)
  unfolding refill_loop
  refill_loop_lem zero its s pc prev_pc r here end short enough res at room = absurd (omega arith)
  refill_loop_lem (suc fuel) [] s pc prev_pc r here end short enough res at room =
      (s, rw (le→ltb pc prev_pc (omega arith)) refl, Steps-none s r, tt)
  refill_loop_lem (suc fuel) (it ∷ its) s pc prev_pc r here end short enough res at room =
      let n : ℕ = 2 * length (words_before it) in
      let k : ℕ = 2 * length (all_before its) in
      let l = length-append (words_before it) (all_before its) in
      let pos = some_words it in
      let (at1, at2) =
        HoldsWords-split (view s.writer) (get_raw_position s.writer) (words_before it)
          (all_before its) at in
      let (t, e, (steps, now)) =
        round_lem code_space embed_address function_list s r pc here it res.0 at1 (omega arith) in
      let moved = steps.moved in
      let region = steps.region in
      let next : (pc + n) % 2 ^ 16 ≡ pc + n = omega arith in
      let rest =
        subst (λ p. HoldsWords (view t.writer) p (all_before its)) (sym moved)
          (HoldsWords-same (view s.writer) (view t.writer) (get_raw_position s.writer + n)
            (all_before its) (λ a h h'. steps.behind a h) at2) in
      let (s', e', steps', later) =
        refill_loop_lem fuel its t (pc + n) prev_pc steps.ready (omega arith) (omega arith) short
          (omega arith) (subst (λ b. AllResolve b its) (sym steps.labels) res.1) rest
          (omega arith) in
      (
        s',
        loop_step fuel pc prev_pc s t ((pc + n) % 2 ^ 16) (omega arith) e
            ∙ ap (λ q. refill_loop code_space embed_address function_list fuel prev_pc q t) next
            ∙ e',
        Steps-trans n k (2 * length (all_before (it ∷ its))) (omega arith) steps steps',
        join-after it its t s' (get_raw_position s.writer) moved now steps' later,
      )

  length-le-words : (its : List Item) → length its ≤ length (all_before its)
  length-le-words [] = omega arith
  length-le-words (it ∷ its) =
      omega (
        arith,
        length-append (words_before it) (all_before its),
        some_words it,
        length-le-words its,
      )

  abbrev opened : Compiler → State
  opened c = with_writer (open_raw code_space end_of_compiled_code_space) c.state

  opened_lem :
      (w : Writer)
      → let w' = open_raw code_space end_of_compiled_code_space w in
        (get_raw_position w' ≡ code_space)
        × ((a : ℕ) → view w' a ≡ w.rom a)
        × (w'.end_of_safe_region ≡ end_of_compiled_code_space)
  unfolding open_raw get_raw_position
  opened_lem w = (omega arith, λ a. view-open_raw code_space end_of_compiled_code_space w a, refl)

  -- Between opening and closing.
  started : Compiler → Compiler
  started c = record c { next_method = code_space / 2 % 2 ^ 16; state = opened c }

  compile_open-started :
      (c : Compiler)
      → code_space < 2 ^ 17
      → code_space % 2 ≡ 0
      → compile_open (set_start_of_next_method code_space c) ≡ started c
  unfolding compile_open started
  compile_open-started c small even =
      let start : code_space / 2 % 2 ^ 16 * 2 ≡ code_space = omega arith in rw start refl

  -- The rounds of the second pass, from the opened writer on.
  rounds_lem :
      (its : List Item) (c : Compiler)
      → c.state.buffer ≡ []
      → 2 * spm_pagesize ≤ code_space
      → c.state.pc ≡ 2 * length (all_before its)
      → c.state.pc < 2 ^ 16
      → code_space + c.state.pc ≤ end_of_compiled_code_space
      → AllResolve c.state.block_pc its
      → HoldsWords c.state.writer.rom code_space (all_before its)
      → (s' : State) × (refill_loop code_space embed_address function_list refill_fuel c.state.pc 0
            (opened c)
          ≡ ok (tt, s'))
        × Steps c.state.pc (opened c) s'
        × HoldsWords (view s'.writer) code_space (all_after code_space its)
  rounds_lem its c empty page size short inside res at =
      let (pos, seen, region) = opened_lem c.state.writer in
      let ready : IsReady (opened c) = record {
        opened = open_raw-IsOpen code_space end_of_compiled_code_space c.state.writer;
        placed = omega arith;
        flushed = empty;
      } in
      let at' =
        HoldsWords-same c.state.writer.rom (view (opened c).writer) code_space (all_before its)
          (λ a h k. seen a) at in
      let (s', e, steps, now) =
        refill_loop_lem refill_fuel its (opened c) 0 c.state.pc ready (omega arith) (omega arith)
          short (omega (arith, length-le-words its)) res
          (subst (λ p. HoldsWords (view (opened c).writer) p (all_before its)) (sym pos) at')
          (omega arith) in
      (
        s',
        e,
        subst (λ n. Steps n (opened c) s') (sym size) steps,
        subst (λ p. HoldsWords (view s'.writer) p (all_after code_space its)) pos now,
      )

  -- Closing with nothing left to flush.
  closed : Compiler → Compiler
  closed c = record c {
    next_method = get_raw_position c.state.writer / 2 % 2 ^ 16;
    state = with_writer close c.state;
  }

  compile_close-closed : (c : Compiler) → c.state.buffer ≡ [] → compile_close c ≡ ok (closed c)
  unfolding compile_close emit_flush_to_flash closed
  compile_close-closed c empty = rw empty refl

  -- Where nothing is buffered, the code space begins at an even address from 512 on below 2 ^ 17, the
  -- compiled code of `pc` bytes that stands there consists of jumps with a label, calls with a
  -- function's number and other words that are neither opcode, fits the space, and every label has a
  -- pc and every function an address, `branch_pc_refill` succeeds: each jump's label is replaced by
  -- the word address of the label's pc, each call's number by the function's address, all other
  -- memory is as it was, and the next method begins behind the code.
  pub branch_pc_refill_lem :
      (its : List Item) (c : Compiler)
      → c.state.buffer ≡ []
      → 2 * spm_pagesize ≤ code_space
      → code_space < 2 ^ 17
      → code_space % 2 ≡ 0
      → c.state.pc ≡ 2 * length (all_before its)
      → c.state.pc < 2 ^ 16
      → code_space + c.state.pc ≤ end_of_compiled_code_space
      → AllResolve c.state.block_pc its
      → HoldsWords c.state.writer.rom code_space (all_before its)
      → (c' : Compiler) × (branch_pc_refill code_space embed_address function_list c ≡ ok c')
        × HoldsWords c'.state.writer.rom code_space (all_after code_space its)
        × ((a : ℕ)
            → ((code_space ≤ a) × (a < code_space + c.state.pc))
              ⊎ (c'.state.writer.rom a ≡ c.state.writer.rom a))
        × (c'.next_method * 2 ≡ code_space + c.state.pc)
  unfolding branch_pc_refill closed started
  branch_pc_refill_lem its c empty page small even size short inside res at =
      let (pos, seen, region) = opened_lem c.state.writer in
      let (s', e, steps, now) = rounds_lem its c empty page size short inside res at in
      let moved = steps.moved in
      let done : Compiler = record (started c) { state = s' } in
      (
        closed done,
        rw (compile_open-started c small even, e) (compile_close-closed done steps.ready.flushed),
        HoldsWords-same (view s'.writer) (close s'.writer).rom code_space (all_after code_space its)
            (λ a h k. rom-close s'.writer a steps.ready.opened) now,
        λ a. elim (dec_lt a code_space) [
          | yes h ↦
              inr (rom-close s'.writer a steps.ready.opened ∙ steps.before a (omega arith) ∙ seen a)
          | no h ↦ elim (dec_lt a (code_space + c.state.pc)) [
            | yes k ↦ inl (omega arith, k)
            | no k ↦
                inr
                  (rom-close s'.writer a steps.ready.opened ∙ steps.behind a (omega arith) ∙ seen a)
          ]
        ],
        omega arith,
      )
