-- ===== src/Wkreprog/View.antt =====
-- A session of the page writer is a plain overwrite of the program memory.
use wait.Common.{ℕ, zero, suc, ◌+◌, ◌-◌, ◌^◌, ◌≤◌, ◌<◌, ◌≡◌, refl, ◌∙◌, arith}
use wait.Common.{Bool, true, false, List, drop, ◌==◌, ne→==}
use native.Mathlib.Decide.{dec_lt}
use wait.Common.{◌⊎◌, eq→==, Bool-cases, inl, inr, ok, panic, ◌≢◌}
use wait.Wkreprog.{Writer, spm_pagesize}
use wait.Wkreprog.{get_raw_position, open_raw}
use wait.Wkreprog.{bytes_on_page, write_chunk, write_loop, write, close}
use wait.Wkreprog.Pages.{
  view, IsOpen, program_page_lem, open_raw-IsOpen, view-open_raw, view-advance, overwritten,
  view-write_chunk, write_chunk-IsOpen, position-write_chunk, overwritten-overwritten, chunk_bounds,
}

write_loop-zero :
    (fuel : ℕ) (skip : Bool) (bytes : List ℕ) (s : Writer) → write_loop fuel skip 0 bytes s ≡ s
unfolding write_loop
write_loop-zero zero skip bytes s = refl
write_loop-zero (suc fuel) skip bytes s = refl

write_loop-suc :
    (fuel : ℕ) (skip : Bool) (size : ℕ) (bytes : List ℕ) (s : Writer)
    → write_loop (suc fuel) skip (suc size) bytes s
      ≡ write_loop fuel skip
          (suc size - bytes_on_page s.buf_len (suc size))
          (drop (bytes_on_page s.buf_len (suc size)) bytes)
          (write_chunk skip (bytes_on_page s.buf_len (suc size)) bytes s)
unfolding write_loop
write_loop-suc fuel skip size bytes s = rw (ne→== (suc size) 0 (omega arith))

-- The loop of `wkreprog_impl_write` with data: the bytes go to the position, over page ends too.
write_loop_lem :
    (fuel size : ℕ) (bytes : List ℕ) (s : Writer)
    → size ≤ fuel
    → size < 2 ^ 15
    → IsOpen s
    → IsOpen (write_loop fuel false size bytes s)
      × (get_raw_position (write_loop fuel false size bytes s) ≡ get_raw_position s + size)
      × ((a : ℕ)
          → view (write_loop fuel false size bytes s) a
            ≡ overwritten (view s) (get_raw_position s) size bytes a)
write_loop_lem fuel zero bytes s le small o = rw write_loop-zero (o, omega arith, λ a. ground arith)
write_loop_lem zero (suc size) bytes s le small o = absurd (omega arith)
write_loop_lem (suc fuel) (suc size) bytes s le small o =
    let n : ℕ = bytes_on_page s.buf_len (suc size) in
    let (fits, below, pos) = chunk_bounds s (suc size) o small in
    let some_byte : 0 < n = pos (omega arith) in
    let moved = position-write_chunk false n bytes s fits in
    let (o', p', v') =
      write_loop_lem fuel (suc size - n) (drop n bytes) (write_chunk false n bytes s) (omega arith)
        (omega arith) (write_chunk-IsOpen false n bytes s o fits) in
    rw write_loop-suc (
      o',
      omega arith,
      λ a.
          v' a
          ∙ rw (moved, view-write_chunk n bytes s a fits)
              (overwritten-overwritten (view s) (get_raw_position s) n (suc size) bytes a below),
    )

-- Skipping: the position moves on, and nothing that will be left behind changes.
skip_loop_lem :
    (fuel size : ℕ) (bytes : List ℕ) (s : Writer)
    → size ≤ fuel
    → size < 2 ^ 15
    → IsOpen s
    → IsOpen (write_loop fuel true size bytes s)
      × (get_raw_position (write_loop fuel true size bytes s) ≡ get_raw_position s + size)
      × ((a : ℕ) → view (write_loop fuel true size bytes s) a ≡ view s a)
skip_loop_lem fuel zero bytes s le small o = rw write_loop-zero (o, omega arith, λ a. refl)
skip_loop_lem zero (suc size) bytes s le small o = absurd (omega arith)
skip_loop_lem (suc fuel) (suc size) bytes s le small o =
    let n : ℕ = bytes_on_page s.buf_len (suc size) in
    let (fits, below, pos) = chunk_bounds s (suc size) o small in
    let some_byte : 0 < n = pos (omega arith) in
    let moved = position-write_chunk true n bytes s fits in
    let (o', p', v') =
      skip_loop_lem fuel (suc size - n) (drop n bytes) (write_chunk true n bytes s) (omega arith)
        (omega arith) (write_chunk-IsOpen true n bytes s o fits) in
    rw write_loop-suc (o', omega arith, λ a. v' a ∙ (unfold write_chunk in view-advance n s a fits))

-- Closing an open writer stores what was seen through the page buffer, at every address.
pub rom-close : (s : Writer) (a : ℕ) → IsOpen s → (close s).rom a ≡ view s a
unfolding close view
rom-close s a o = elim (Bool-cases (s.buf_len == 0)) [
  | inl e ↦ rw e (ground (arith, o.clean (a - s.pageaddress)))
  | inr e ↦ rw (e, program_page_lem) (ground (arith, o.clean (a - s.pageaddress)))
]

module _ (size : ℕ) (bytes : List ℕ) (s : Writer) (o : IsOpen s) (small : size < 2 ^ 15) where
  -- Writing fewer than 2 ^ 15 bytes with an open writer, within the safe region, succeeds; the
  -- writer stays open, its position moves by the size, and the memory as seen through the page
  -- buffer is overwritten with the bytes at the old position and nowhere else.
  pub write_lem :
      s.pageaddress ≢ 0
      → get_raw_position s + size ≤ s.end_of_safe_region
      → (s' : Writer) × (write false size bytes s ≡ ok s')
        × IsOpen s'
        × (get_raw_position s' ≡ get_raw_position s + size)
        × ((a : ℕ) → view s' a ≡ overwritten (view s) (get_raw_position s) size bytes a)
  unfolding write
  write_lem opened inside =
      let (o', p', v') = write_loop_lem size size bytes s (omega arith) small o in
      (write_loop size false size bytes s, unfold get_raw_position in ground arith, o', p', v')

  -- Skipping fewer than 2 ^ 15 bytes with an open writer, within the safe region, succeeds; the
  -- writer stays open, its position moves by the size, and the memory as seen through the page
  -- buffer does not change.
  pub skip_lem :
      s.pageaddress ≢ 0
      → get_raw_position s + size ≤ s.end_of_safe_region
      → (s' : Writer) × (write true size bytes s ≡ ok s')
        × IsOpen s'
        × (get_raw_position s' ≡ get_raw_position s + size)
        × ((a : ℕ) → view s' a ≡ view s a)
  unfolding write
  skip_lem opened inside =
      let (o', p', v') = skip_loop_lem size size bytes s (omega arith) small o in
      (write_loop size true size bytes s, unfold get_raw_position in ground arith, o', p', v')

-- Opening the writer at a start in the second page or behind it, writing fewer than 2 ^ 15 bytes
-- that fit the safe region, and closing succeeds, and the program memory is then the old one with
-- these bytes from the start on and no other byte changed.
pub session_overwrites :
    (start end size : ℕ) (bytes : List ℕ) (s : Writer)
    → spm_pagesize ≤ start
    → start + size ≤ end
    → size < 2 ^ 15
    → (s' : Writer) × (write false size bytes (open_raw start end s) ≡ ok s')
      × ((a : ℕ) → (close s').rom a ≡ overwritten s.rom start size bytes a)
session_overwrites start end size bytes s page inside small =
    let (s', e, o, p, v) =
      write_lem size bytes (open_raw start end s) (open_raw-IsOpen start end s) small
        (unfold open_raw in omega arith) (unfold open_raw get_raw_position in omega arith) in
    (s', e, λ a. rom-close s' a o ∙ v a ∙ rw (view-open_raw start end s a, position start) refl)
  where
    position : (p : ℕ) → get_raw_position (open_raw p end s) ≡ p
    position p = unfold open_raw get_raw_position in omega arith

-- What would pass the end of the safe region is refused, with data and without.
write_refused :
    (skip : Bool) (size : ℕ) (bytes : List ℕ) (s : Writer)
    → s.pageaddress ≢ 0
    → get_raw_position s + size < 2 ^ 32
    → s.end_of_safe_region < get_raw_position s + size
    → write skip size bytes s ≡ panic
unfolding write get_raw_position
write_refused skip size bytes s ne below out = ground arith

-- What a write comes to: without a session, past the end of the safe region, and within it.
abbrev pub WriteOutcome : ℕ → List ℕ → Writer → Type 0
WriteOutcome size bytes s =
    ((s.pageaddress ≡ 0) × (write false size bytes s ≡ ok s))
    ⊎ (((s.pageaddress ≢ 0)
          × (s.end_of_safe_region < get_raw_position s + size)
          × (write false size bytes s ≡ panic))
        ⊎ ((s.pageaddress ≢ 0)
            × (get_raw_position s + size ≤ s.end_of_safe_region)
            × ((s' : Writer) × (write false size bytes s ≡ ok s')
                × (get_raw_position s' ≡ get_raw_position s + size)
                × ((a : ℕ) → view s' a ≡ overwritten (view s) (get_raw_position s) size bytes a))))

-- Writing fewer than 2 ^ 15 bytes that end below 2 ^ 32, to a writer whose buffer is open, does one
-- of three things: without a session nothing; with one, where the bytes would pass the end of the safe
-- region, be it 0 or not, it stops; and else it succeeds, the position moves by the size, and the
-- memory as seen through the page buffer is overwritten with the bytes at the old position and nowhere
-- else.
pub write_cases :
    (size : ℕ) (bytes : List ℕ) (s : Writer)
    → IsOpen s
    → size < 2 ^ 15
    → get_raw_position s + size < 2 ^ 32
    → WriteOutcome size bytes s
write_cases size bytes s o small below = elim (dec_lt 0 s.pageaddress) [
  | no closed ↦
      let none : s.pageaddress ≡ 0 = omega arith in
      inl (none, unfold write in rw (eq→== s.pageaddress 0 none) refl)
  | yes opened ↦
      let some : s.pageaddress ≢ 0 = λ e. omega arith in
      elim (dec_lt s.end_of_safe_region (get_raw_position s + size)) [
        | yes out ↦ inr (inl (some, out, write_refused false size bytes s some below out))
        | no inside ↦
            let room : get_raw_position s + size ≤ s.end_of_safe_region = omega arith in
            let (s', e, o', p, v) = write_lem size bytes s o small some room in
            inr (inr (some, room, (s', e, p, v)))
      ]
]
