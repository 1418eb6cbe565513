-- ===== src/Emit/Position.antt =====
-- src/rtc_emit.c with the page writer below it: emitting a word keeps the buffer short, and the
-- place where the next word will be written moves together with the pc.
use wait.Common.{ℕ, ◌+◌, ◌*◌, ◌%◌, ◌^◌, ◌<◌, ◌≤◌, ◌≡◌, refl, ap, arith}
use wait.Common.{[], ◌∷◌, ◌++◌, length, false, leb}
use wait.Common.{Bool-cases, inl, inr, length-append, ok, ne→==, ◌≢◌}
use wait.Wkreprog.{Writer, spm_pagesize, get_raw_position}
use wait.Wkreprog
use wait.Wkreprog.Pages.{IsOpen, view, overwritten}
use wait.Wkreprog.View.{write_lem}
use wait.Wkreprog.Region.{region-write}
use wait.Emit.{State, rtc_codebuffer_size, rtc_optimise, word_bytes, write_buffer, emit_raw_word}
use wait.Emit.{emit_flush_to_flash}
use wait.Emit.Optimise.{rtc_optimise-Optimised, Removes-length}

-- The address behind the last buffered word.
abbrev pub code_end : State → ℕ
code_end s = get_raw_position s.writer + 2 * length s.buffer

-- The page writer is open, its position is behind the second page, and the buffer is not full.
pub record IsReady (s : State) : Type 0 where
  pub opened : IsOpen s.writer
  pub placed : 2 * spm_pagesize ≤ get_raw_position s.writer
  pub short : length s.buffer < rtc_codebuffer_size

-- What an emission of code does: the pc and the end of the code move together.
abbrev pub Moves : State → State → Type 0
Moves s s' = (s'.pc + code_end s) % 2 ^ 16 ≡ (s.pc + code_end s') % 2 ^ 16

-- The page is not the first.
page_nonzero : (w : Writer) → IsOpen w → 2 * spm_pagesize ≤ get_raw_position w → w.pageaddress ≢ 0
unfolding get_raw_position
page_nonzero w o h e = let l = o.short in absurd (omega arith)

-- A state with the optimised buffer written out.
abbrev flushed : State → Writer → State
flushed o w = record o { writer = w; buffer = [] }

write_buffer_lem :
    (t : State) (m : ℕ) (v w : Writer)
    → 2 * length t.buffer % 2 ^ 16 ≡ m
    → t.writer ≡ v
    → Wkreprog.write false m (word_bytes t.buffer) v ≡ ok w
    → write_buffer t ≡ ok (tt, flushed t w)
write_buffer_lem t m v w e f g = rw (e, f, g) refl

-- Flushing writes what the optimiser leaves of the buffer behind the position, and empties it.
abbrev pub Flushed : State → State → Type 0
Flushed s s' =
    IsReady s'
    × (s'.buffer ≡ [])
    × (code_end s' ≤ code_end s)
    × (s'.writer.end_of_safe_region ≡ s.writer.end_of_safe_region)
    × Moves s s'
    × ((a : ℕ)
        → view s'.writer a
          ≡ overwritten (view s.writer) (get_raw_position s.writer)
              (2 * length (rtc_optimise s).buffer) (word_bytes (rtc_optimise s).buffer) a)

module _ (s : State) (o : IsOpen s.writer) (placed : 2 * spm_pagesize ≤ get_raw_position s.writer)
    (some_words : 0 < length s.buffer) (short : length s.buffer ≤ rtc_codebuffer_size)
    (inside : code_end s ≤ s.writer.end_of_safe_region) where
  -- Flushing a buffer of 1 to 96 words that fits the safe region, with an open writer at 512 or
  -- above, succeeds: the buffer is empty, the state is ready, the end of the code does not grow, the
  -- region stays, the pc and the end of the code move together modulo 2 ^ 16, and the memory is
  -- overwritten with the bytes of the optimised buffer at the old position and nowhere else.
  pub flush_lem : (s' : State) × (emit_flush_to_flash s ≡ ok (tt, s')) × Flushed s s'
  unfolding emit_flush_to_flash
  flush_lem =
      let (n, (r, p, k)) = rtc_optimise-Optimised s in
      let t : State = rtc_optimise s in
      let same : t.writer ≡ s.writer = ap (λ (x : State). x.writer) k in
      let l = Removes-length r in
      let size : 2 * length t.buffer % 2 ^ 16 ≡ 2 * length t.buffer = omega arith in
      let (w, e, o', p', v') =
        write_lem (2 * length t.buffer) (word_bytes t.buffer) s.writer o (omega arith)
          (page_nonzero s.writer o placed) (omega arith) in
      (
        flushed t w,
        rw (ne→== (length s.buffer) 0 (λ z. omega arith))
            (write_buffer_lem t (2 * length t.buffer) s.writer w size same e),
        (
          record { opened = o'; placed = omega arith; short = omega arith },
          refl,
          omega arith,
          region-write false _ _ s.writer w e,
          omega arith,
          v',
        ),
      )

abbrev added : ℕ → State → State
added word s = record s { buffer = s.buffer ++ word ∷ []; pc = (s.pc + 2) % 2 ^ 16 }

-- In a ready state with two bytes of room in the safe region, emitting a word succeeds; the new
-- state is ready (the buffer is below its capacity, the writer is open), the end of the code grows
-- by two bytes at most, the region stays, and the pc and the end of the code move by the same number
-- of bytes modulo 2 ^ 16.
pub emit_raw_word_lem :
    (word : ℕ) (s : State)
    → IsReady s
    → code_end s + 2 ≤ s.writer.end_of_safe_region
    → (s' : State) × (emit_raw_word word s ≡ ok (tt, s'))
      × IsReady s'
      × (code_end s' ≤ code_end s + 2)
      × (s'.writer.end_of_safe_region ≡ s.writer.end_of_safe_region)
      × Moves s s'
unfolding emit_raw_word
emit_raw_word_lem word s r room =
    let n = length-append s.buffer (word ∷ []) in
    let b = r.short in
    elim (Bool-cases (leb rtc_codebuffer_size (length (added word s).buffer))) [
      | inl full ↦
          let (s', e, (ready, z, below, region, moves, v)) =
            flush_lem (added word s) r.opened r.placed (omega arith) (omega arith) (omega arith) in
          (s', rw full e, ready, omega arith, region, omega arith)
      | inr half ↦ (
        added word s,
        rw half refl,
        record { opened = r.opened; placed = r.placed; short = ground arith },
        omega arith,
        refl,
        omega arith,
      )
    ]
