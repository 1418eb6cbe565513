-- ===== src/Wkreprog/Region.antt =====
-- Writing through the page buffer of src/wkreprog_impl.c keeps the end of the safe region.
use wait.Common.{◌%◌, ◌^◌}
use wait.Common.{ℕ, zero, suc, ◌+◌, ◌≡◌, refl, sym, ap, ◌∙◌, List, Bool, true, false, ◌==◌, ltb}
use wait.Common.{Bool-cases, inl, inr, Result, ok, panic}
use wait.Wkreprog.{Writer, advance, write_chunk, write_loop, write, bytes_on_page, spm_pagesize}

region-advance : (n : ℕ) (s : Writer) → (advance n s).end_of_safe_region ≡ s.end_of_safe_region
unfolding advance
region-advance n s = elim (Bool-cases (s.buf_len + n == spm_pagesize)) [
  | inl e ↦ rw e refl
  | inr e ↦ rw e refl
]

region-write_chunk :
    (skip : Bool) (n : ℕ) (bytes : List ℕ) (s : Writer)
    → (write_chunk skip n bytes s).end_of_safe_region ≡ s.end_of_safe_region
unfolding write_chunk
region-write_chunk true n bytes s = region-advance n s
region-write_chunk false n bytes s = region-advance n _

region-write_loop :
    (fuel : ℕ) (skip : Bool) (size : ℕ) (bytes : List ℕ) (s : Writer)
    → (write_loop fuel skip size bytes s).end_of_safe_region ≡ s.end_of_safe_region
unfolding write_loop
region-write_loop zero skip size bytes s = refl
region-write_loop (suc fuel) skip size bytes s = elim (Bool-cases (size == 0)) [
  | inl e ↦ rw e refl
  | inr e ↦ rw e (
      region-write_loop fuel skip _ _ (write_chunk skip (bytes_on_page s.buf_len size) bytes s)
      ∙ region-write_chunk skip (bytes_on_page s.buf_len size) bytes s)
]

panic_ok : (w : Writer) → ¬ (◌≡◌ {A = Result Writer} panic (ok w))
panic_ok w e = cc e

pub region-write :
    (skip : Bool) (size : ℕ) (bytes : List ℕ) (s s' : Writer)
    → write skip size bytes s ≡ ok s'
    → s'.end_of_safe_region ≡ s.end_of_safe_region
unfolding write
region-write skip size bytes s s' e = elim (Bool-cases (s.pageaddress == 0)) [
  | inl z ↦ let f : s ≡ s' = cc (rw z at e) in ap (λ (w : Writer). w.end_of_safe_region) (sym f)
  | inr z ↦
      elim (Bool-cases (ltb s.end_of_safe_region ((s.pageaddress + s.buf_len + size) % 2 ^ 32))) [
        | inl o ↦ absurd (panic_ok s' (rw (z, o) at e))
        | inr o ↦
            let f : write_loop size skip size bytes s ≡ s' = cc (rw (z, o) at e) in
            ap (λ (w : Writer). w.end_of_safe_region) (sym f)
            ∙ region-write_loop size skip size bytes s
      ]
]
