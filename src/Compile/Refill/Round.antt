-- ===== src/Compile/Refill/Round.antt =====
-- One round of `branch_pc_refill` of src/compile.c, as the page writer sees it.
use wait.Common.{ℕ, ◌+◌, ◌-◌, ◌*◌, ◌/◌, ◌%◌, ◌^◌, ◌≤◌, ◌<◌, ◌≡◌, ◌≢◌, refl, ap, ◌∙◌, arith}
use wait.Common.{List, [], ◌∷◌, get_elem?, some, ok, length, true, false, ne→==}
use wait.Asm
use wait.Emit.{State, ◌>>◌, emit2, emit_raw_word, emit_flush_to_flash, rtc_optimise, word_bytes}
use wait.Wkreprog.{Writer, spm_pagesize, get_raw_position}
use wait.Wkreprog.Pages.{view, IsOpen}
use wait.Wkreprog.View.{write_lem, skip_lem}
use wait.Wkreprog.Region.{region-write}
use wait.Parse.{WasmFunction}
use wait.Compile.Refill.{word_at, call_address, refill_jmp, refill_call, refill_skip, refill_round}

-- The writer is open behind the second page, and nothing is buffered.
pub record IsReady (s : State) : Type 0 where
  pub opened : IsOpen s.writer
  pub placed : 2 * spm_pagesize ≤ get_raw_position s.writer
  pub flushed : s.buffer ≡ []

-- What a round of n bytes does: the labels stay, the position moves, and nothing changes outside the
-- n bytes at the old position.
pub record Steps (n : ℕ) (s s' : State) : Type 0 where
  pub ready : IsReady s'
  pub labels : s'.block_pc ≡ s.block_pc
  pub moved : get_raw_position s'.writer ≡ get_raw_position s.writer + n
  pub region : s'.writer.end_of_safe_region ≡ s.writer.end_of_safe_region
  pub before : (a : ℕ) → a < get_raw_position s.writer → view s'.writer a ≡ view s.writer a
  pub behind : (a : ℕ) → get_raw_position s.writer + n ≤ a → view s'.writer a ≡ view s.writer a

-- From its position on the memory is still what it will be.
pub rom-view : (w : Writer) (a : ℕ) → IsOpen w → get_raw_position w ≤ a → w.rom a ≡ view w a
unfolding view get_raw_position
rom-view w a o h = let short = o.short in ground (arith, o.clean (a - w.pageaddress))

page_nonzero : (w : Writer) → IsOpen w → 2 * spm_pagesize ≤ get_raw_position w → w.pageaddress ≢ 0
unfolding get_raw_position
page_nonzero w o h e = let l = o.short in absurd (omega arith)

module _ (s : State) (r : IsReady s) where
  -- Two words are written in place of the two that stand there.
  emit_two :
      (a b : ℕ)
      → get_raw_position s.writer + 4 ≤ s.writer.end_of_safe_region
      → (s' : State) × ((emit2 a b >> emit_flush_to_flash) s ≡ ok (tt, s'))
        × Steps 4 s s'
        × (word_at (view s'.writer) (get_raw_position s.writer) ≡ a % 2 ^ 16)
        × (word_at (view s'.writer) (get_raw_position s.writer + 2) ≡ b % 2 ^ 16)
  unfolding emit2 emit_raw_word emit_flush_to_flash rtc_optimise word_bytes
  emit_two a b room =
      let words = a % 2 ^ 16 ∷ b % 2 ^ 16 ∷ [] in
      let (w, e, o, p, v) =
        write_lem 4 (word_bytes words) s.writer r.opened (omega arith)
          (page_nonzero s.writer r.opened r.placed) (omega arith) in
      let at : ℕ = get_raw_position s.writer in
      (
        record s { writer = w; buffer = []; pc = ((s.pc + 2) % 2 ^ 16 + 2) % 2 ^ 16 },
        rw (r.flushed, e) refl,
        record {
          ready = record { opened = o; placed = omega arith; flushed = refl };
          labels = refl;
          moved = p;
          region = region-write false 4 (word_bytes words) s.writer w e;
          before = λ x h. v x ∙ ground arith;
          behind = λ x h. v x ∙ ground arith;
        },
        ground (arith, v at, v (at + 1)),
        ground (arith, v (at + 2), v (at + 2 + 1)),
      )

-- An instruction of the compiled code before the second pass: a jump with its label, and the pc that
-- the label has; a call with the number of the function, and its address; any other word.
pub data Item : Type 0 where
  jmp call : ℕ → ℕ → Item
  other : ℕ → Item

abbrev pub words_before : Item → List ℕ
words_before (jmp label pc) = Asm.opcode_jmp ∷ label ∷ []
words_before (call id address) = Asm.opcode_call ∷ id ∷ []
words_before (other w) = w ∷ []

-- A jump to the word address, a call of the address.
abbrev pub words_after : ℕ → Item → List ℕ
words_after code_space (jmp label pc) = Asm.opcode_jmp ∷ (code_space + pc) / 2 % 2 ^ 16 ∷ []
words_after code_space (call id address) = Asm.opcode_call ∷ address % 2 ^ 16 ∷ []
words_after code_space (other w) = w ∷ []

abbrev pub HoldsWords : (ℕ → ℕ) → ℕ → List ℕ → Type 0
HoldsWords f ptr [] = Unit
HoldsWords f ptr (w ∷ ws) = (word_at f ptr ≡ w) × HoldsWords f (ptr + 2) ws

module _ (code_space : ℕ) (embed_address : ℕ → ℕ) (function_list : List WasmFunction) where
  -- The label has that pc, the function that address.
  abbrev pub Resolves : List ℕ → Item → Type 0
  Resolves block_pc (jmp label pc) = get_elem? block_pc label ≡ some pc
  Resolves block_pc (call id address) =
      call_address code_space embed_address function_list id ≡ ok address
  Resolves block_pc (other w) = (w ≢ Asm.opcode_jmp) × (w ≢ Asm.opcode_call)

  module _ (s : State) (r : IsReady s) (pc : ℕ)
      (here : code_space + pc ≡ get_raw_position s.writer) where
    word_here :
        (w : ℕ)
        → word_at (view s.writer) (get_raw_position s.writer) ≡ w
        → word_at s.writer.rom (code_space + pc) ≡ w
    word_here w e = omega (
      arith,
      e,
      rom-view s.writer (code_space + pc) r.opened (omega arith),
      rom-view s.writer (code_space + pc + 1) r.opened (omega arith),
      ap (view s.writer) here,
      ap (λ a. view s.writer (a + 1)) here,
    )

    word_behind :
        (w : ℕ)
        → word_at (view s.writer) (get_raw_position s.writer + 2) ≡ w
        → word_at s.writer.rom (code_space + pc + 2) ≡ w
    word_behind w e = omega (
      arith,
      e,
      rom-view s.writer (code_space + pc + 2) r.opened (omega arith),
      rom-view s.writer (code_space + pc + 2 + 1) r.opened (omega arith),
      ap (λ a. view s.writer (a + 2)) here,
      ap (λ a. view s.writer (a + 2 + 1)) here,
    )

    abbrev pub Done : Item → State → Type 0
    Done it s' =
        Steps (2 * length (words_before it)) s s'
        × HoldsWords (view s'.writer) (get_raw_position s.writer) (words_after code_space it)

    pub round_lem :
        (it : Item)
        → Resolves s.block_pc it
        → HoldsWords (view s.writer) (get_raw_position s.writer) (words_before it)
        → get_raw_position s.writer + 2 * length (words_before it) ≤ s.writer.end_of_safe_region
        → (s' : State) × (refill_round code_space embed_address function_list pc s
            ≡ ok ((pc + 2 * length (words_before it)) % 2 ^ 16, s'))
          × Done it s'
    unfolding refill_round refill_jmp refill_call refill_skip
    round_lem (jmp label target) res at room =
        let (s', e, steps, a, b) = emit_two s r Asm.opcode_jmp ((code_space + target) / 2) room in
        (
          s',
          rw (word_here Asm.opcode_jmp at.0, word_behind label at.1.0, res, e) refl,
          (steps, (a, (b, tt))),
        )
    round_lem (call id address) res at room =
        let (s', e, steps, a, b) = emit_two s r Asm.opcode_call address room in
        (
          s',
          rw (word_here Asm.opcode_call at.0, word_behind id at.1.0, res, e) refl,
          (steps, (a, (b, tt))),
        )
    round_lem (other w) (not_jmp, not_call) at room =
        let (w', e, o, p, v) =
          skip_lem 2 [] s.writer r.opened (omega arith) (page_nonzero s.writer r.opened r.placed)
            room in
        (
          record s { writer = w' },
          rw (word_here w at.0, ne→== w Asm.opcode_jmp not_jmp, ne→== w Asm.opcode_call not_call, e)
              refl,
          (
            record {
              ready = record { opened = o; placed = omega arith; flushed = r.flushed };
              labels = refl;
              moved = p;
              region = region-write true 2 [] s.writer w' e;
              before = λ x h. v x;
              behind = λ x h. v x;
            },
            (
              omega (arith, at.0, v (get_raw_position s.writer), v (get_raw_position s.writer + 1)),
              tt,
            ),
          ),
        )
