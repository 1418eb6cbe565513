-- ===== src/Wkreprog/Pages.antt =====
-- One chunk of a write of src/wkreprog_impl.c: what it does to the memory under the page buffer.
use wait.Common.{ℕ, zero, suc, ◌+◌, ◌-◌, ◌^◌, ◌≤◌, ◌<◌, ◌≡◌, refl, ◌∙◌, arith}
use wait.Common.{
  Bool, true, false, ◌&&◌, List, ltb, leb, if◌then◌else◌, get_or, drop, get_or-drop, ◌==◌, ==→eq,
}
use wait.Common.{Bool-cases, inl, inr}
use native.Mathlib.Decide.{dec_lt}
use wait.Wkreprog.{Writer, spm_pagesize, in_page, program_page, page_differs}
use wait.Wkreprog.{program_page_if_not_modified, get_raw_position, open_raw}
use wait.Wkreprog.{bytes_on_page, advance, write_chunk}

-- The program memory as the session will leave it: the open page over the rest.
unfoldable pub view : Writer → ℕ → ℕ
view s a = if in_page s.pageaddress a then s.pagebuffer (a - s.pageaddress) else s.rom a

-- The page is whole, and from the position on the buffer still holds what the memory holds.
pub record IsOpen (s : Writer) : Type 0 where
  pub short : s.buf_len < spm_pagesize
  pub clean :
      (i : ℕ) → s.buf_len ≤ i → i < spm_pagesize → s.pagebuffer i ≡ s.rom (s.pageaddress + i)

-- A page without a difference holds the buffer already.
same_page :
    (rom : ℕ → ℕ) (page : ℕ) (buffer : ℕ → ℕ) (n : ℕ)
    → page_differs rom page buffer n ≡ false
    → (i : ℕ) → i < n
    → buffer i ≡ rom (page + i)
unfolding page_differs
same_page rom page buffer zero e i h = absurd (omega arith)
same_page rom page buffer (suc n) e i h = elim (Bool-cases (buffer n == rom (page + n))) [
  | inl same ↦ elim (dec_lt i n) [
    | yes below ↦ same_page rom page buffer n (rw same at e) i below
    | no last ↦ let k : i ≡ n = omega arith in rw k (==→eq _ _ same)
  ]
  | inr other ↦ cc (rw other at e)
]

-- Leaving out the needless write changes nothing.
pub program_page_lem :
    (rom : ℕ → ℕ) (page : ℕ) (buffer : ℕ → ℕ) (a : ℕ)
    → program_page_if_not_modified rom page buffer a
      ≡ (if in_page page a then buffer (a - page) else rom a)
unfolding program_page_if_not_modified program_page
program_page_lem rom page buffer a = elim (Bool-cases (page_differs rom page buffer spm_pagesize)) [
  | inl e ↦ rw e
  | inr e ↦ rw e (ground (arith, same_page rom page buffer spm_pagesize e (a - page)))
]

pub open_raw-IsOpen : (start end : ℕ) (s : Writer) → IsOpen (open_raw start end s)
unfolding open_raw
open_raw-IsOpen start end s = record { short = omega arith; clean = λ i h k. refl }

pub view-open_raw : (start end : ℕ) (s : Writer) (a : ℕ) → view (open_raw start end s) a ≡ s.rom a
unfolding open_raw view
view-open_raw start end s a = ground arith

-- Moving on by `n` bytes, over a page's end too, does not change what the session will leave.
pub view-advance :
    (n : ℕ) (s : Writer) (a : ℕ) → s.buf_len + n ≤ spm_pagesize → view (advance n s) a ≡ view s a
unfolding advance view
view-advance n s a h = ground (
  arith,
  program_page_lem s.rom s.pageaddress s.pagebuffer a,
  program_page_lem s.rom s.pageaddress s.pagebuffer
      (s.pageaddress + spm_pagesize + (a - (s.pageaddress + spm_pagesize))),
)

advance-IsOpen :
    (n : ℕ) (s : Writer)
    → s.buf_len + n ≤ spm_pagesize
    → ((i : ℕ) → s.buf_len + n ≤ i → i < spm_pagesize → s.pagebuffer i ≡ s.rom (s.pageaddress + i))
    → IsOpen (advance n s)
unfolding advance
advance-IsOpen n s h clean = elim (Bool-cases (s.buf_len + n == spm_pagesize)) [
  | inl e ↦ rw e (record { short = omega arith; clean = λ i h k. refl })
  | inr e ↦ rw e (record { short = omega arith; clean = λ i l k. clean i (ground arith) k })
]

-- What a write of these bytes from the position on leaves behind.
abbrev pub overwritten : (ℕ → ℕ) → ℕ → ℕ → List ℕ → ℕ → ℕ
overwritten old at n bytes a = if leb at a && ltb a (at + n) then get_or bytes (a - at) 0 else old a

pub view-write_chunk :
    (n : ℕ) (bytes : List ℕ) (s : Writer) (a : ℕ)
    → s.buf_len + n ≤ spm_pagesize
    → view (write_chunk false n bytes s) a ≡ overwritten (view s) (get_raw_position s) n bytes a
unfolding write_chunk get_raw_position
view-write_chunk n bytes s a h = view-advance n _ a h ∙ unfold view in ground arith

pub write_chunk-IsOpen :
    (skip : Bool) (n : ℕ) (bytes : List ℕ) (s : Writer)
    → IsOpen s
    → s.buf_len + n ≤ spm_pagesize
    → IsOpen (write_chunk skip n bytes s)
unfolding write_chunk
write_chunk-IsOpen true n bytes s o h = advance-IsOpen n s h (λ i l k. o.clean i (omega arith) k)
write_chunk-IsOpen false n bytes s o h =
    advance-IsOpen n _ h (λ i l k. ground (arith, o.clean i (omega arith) k))

pub position-write_chunk :
    (skip : Bool) (n : ℕ) (bytes : List ℕ) (s : Writer)
    → s.buf_len + n ≤ spm_pagesize
    → get_raw_position (write_chunk skip n bytes s) ≡ get_raw_position s + n
unfolding write_chunk advance get_raw_position
position-write_chunk skip n bytes s h = ground arith

pub overwritten-overwritten :
    (old : ℕ → ℕ) (at n size : ℕ) (bytes : List ℕ) (a : ℕ)
    → n ≤ size
    → overwritten (overwritten old at n bytes) (at + n) (size - n) (drop n bytes) a
      ≡ overwritten old at size bytes a
overwritten-overwritten old at n size bytes a h = elim (dec_lt a (at + n)) [
  | yes before ↦ ground arith
  | no after ↦ ground (arith, get_or-drop n bytes (a - (at + n)) (a - at) 0 (omega arith))
]

pub chunk_bounds :
    (s : Writer) (size : ℕ)
    → IsOpen s
    → size < 2 ^ 15
    → (s.buf_len + bytes_on_page s.buf_len size ≤ spm_pagesize)
      × (bytes_on_page s.buf_len size ≤ size)
      × (0 < size → 0 < bytes_on_page s.buf_len size)
chunk_bounds s size o h = let k = o.short in (ground arith, ground arith, λ p. ground arith)
