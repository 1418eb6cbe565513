-- ===== src/Emit/Optimise.antt =====
-- The optimiser of src/rtc_emit.c: what it removes from the buffer.
use wait.Common.{ℕ, zero, suc, ◌+◌, ◌*◌, ◌%◌, ◌^◌, ◌≤◌, ◌≡◌, refl, sym, ap, ◌∙◌, subst, arith}
use wait.Common.{List, [], ◌∷◌, ◌++◌, length, take, drop, true, ltb, ◌==◌}
use wait.Common.{Bool-cases, inl, inr, ==→eq, le→ltb, length-append}
use mathlib.Core.Bool.{false≢true}
use wait.Emit.{State, push_pop, starts_with, optimise_round, optimise_loop}
use wait.Emit.{rtc_optimise}
use wait.Avr.{disassemble}
use wait.Avr.Cpu.{Calls, Cpu, run, Ends, write}

-- The second list is the first without `n` stretches that are `push_pop`.
pub data Removes : ℕ → List ℕ → List ℕ → Type 0 where
  nothing : {ws : List ℕ} → Removes 0 ws ws
  one_more :
      {n : ℕ} {ws : List ℕ} (us vs : List ℕ)
      → Removes n (us ++ vs) ws
      → Removes (suc n) (us ++ (push_pop ++ vs)) ws

take-drop : (i : ℕ) (ws : List ℕ) → take i ws ++ drop i ws ≡ ws
take-drop zero ws = refl
take-drop (suc i) [] = refl
take-drop (suc i) (w ∷ ws) = ap (λ (r : List ℕ). w ∷ r) (take-drop i ws)

drop-empty : (k : ℕ) → drop {A = ℕ} k [] ≡ []
drop-empty zero = refl
drop-empty (suc k) = refl

pub drop-drop : (i k j : ℕ) (ws : List ℕ) → i + k ≡ j → drop k (drop i ws) ≡ drop j ws
drop-drop zero k j ws e = let e' : k ≡ j = omega arith in ap (λ (n : ℕ). drop n ws) e'
drop-drop (suc i) k j [] e = drop-empty k ∙ sym (drop-empty j)
drop-drop (suc i) k zero (w ∷ ws) e = absurd (omega arith)
drop-drop (suc i) k (suc j) (w ∷ ws) e = drop-drop i k j ws (omega arith)

starts_with-append : (vs ws : List ℕ) → starts_with vs ws ≡ true → vs ++ drop (length vs) ws ≡ ws
unfolding starts_with
starts_with-append [] ws e = refl
starts_with-append (v ∷ vs) [] e = absurd (false≢true e)
starts_with-append (v ∷ vs) (w ∷ ws) e = elim (Bool-cases (v == w)) [
  | inl f ↦ cc (==→eq v w f, starts_with-append vs ws (rw f at e))
  | inr f ↦ absurd (false≢true (rw f at e))
]

-- Where `push_pop` stands at `i`, the buffer is what is before, `push_pop`, and what is behind.
around :
    (i : ℕ) (ws : List ℕ)
    → starts_with push_pop (drop i ws) ≡ true
    → take i ws ++ (push_pop ++ drop (i + 8) ws) ≡ ws
around i ws e =
    let f : push_pop ++ drop (i + 8) ws ≡ drop i ws =
      ap (λ (r : List ℕ). push_pop ++ r) (sym (drop-drop i 8 (i + 8) ws refl))
      ∙ starts_with-append push_pop (drop i ws) e in
    ap (λ (r : List ℕ). take i ws ++ r) f ∙ take-drop i ws

pub Removes-step :
    (n i : ℕ) (ws vs : List ℕ)
    → starts_with push_pop (drop i ws) ≡ true
    → Removes n (take i ws ++ drop (i + 8) ws) vs
    → Removes (suc n) ws vs
Removes-step n i ws vs e r =
    subst (λ us. Removes (suc n) us vs) (around i ws e) (one_more (take i ws) (drop (i + 8) ws) r)

-- From `s` to `s'`, `n` stretches left the buffer, and the pc moved down by as many bytes. Nothing
-- else changed but the pcs of the labels.
abbrev pub Optimised : ℕ → State → State → Type 0
Optimised n s s' =
    Removes n s.buffer s'.buffer
    × ((s'.pc + 16 * n) % 2 ^ 16 ≡ s.pc % 2 ^ 16)
    × (s' ≡ record s { buffer = s'.buffer; pc = s'.pc; block_pc = s'.block_pc })

Optimised-none : (s : State) → Optimised 0 s s
Optimised-none s = (nothing, omega arith, refl)

-- A round, and then a loop on what it leaves.
round-Optimised :
    (i n : ℕ) (s s' : State) → Optimised n (optimise_round i s) s' → (m : ℕ) × Optimised m s s'
unfolding optimise_round
round-Optimised i n s s' o = elim (Bool-cases (starts_with push_pop (drop i s.buffer))) [
  | inl e ↦
      let (r, p, k) = (rw e at o) in
      (suc n, (Removes-step n i s.buffer s'.buffer e r, omega arith, k))
  | inr e ↦ (n, rw e at o)
]

optimise_loop-Optimised :
    (fuel i : ℕ) (s : State) → (n : ℕ) × Optimised n s (optimise_loop fuel i s)
unfolding optimise_loop
optimise_loop-Optimised zero i s = (0, Optimised-none s)
optimise_loop-Optimised (suc fuel) i s = elim (Bool-cases (ltb (i + 8) (length s.buffer))) [
  | inl e ↦
      let (n, o) = optimise_loop-Optimised fuel (i + 1) (optimise_round i s) in
      rw e (round-Optimised i n s _ o)
  | inr e ↦ rw e (0, Optimised-none s)
]

-- For some n, the optimiser removes n stretches from the buffer, each of them the pushes of R25 to
-- R22 followed by the pops of R22 to R25, lowers the pc by 16 * n modulo 2 ^ 16, and changes nothing
-- else but the pcs of the labels.
pub rtc_optimise-Optimised : (s : State) → (n : ℕ) × Optimised n s (rtc_optimise s)
unfolding rtc_optimise
rtc_optimise-Optimised s = elim (Bool-cases (ltb (length s.buffer) 8)) [
  | inl e ↦ rw e (0, Optimised-none s)
  | inr e ↦ rw e (optimise_loop-Optimised (length s.buffer) 0 s)
]

pub Removes-length : {n : ℕ} {ws vs : List ℕ} → Removes n ws vs → length ws ≡ length vs + 8 * n
Removes-length nothing = omega arith
Removes-length (one_more us vs r) =
    omega (arith, Removes-length r, length-append us vs, length-append us (push_pop ++ vs))

round-shorter : (i : ℕ) (s : State) → length (optimise_round i s).buffer ≤ length s.buffer
unfolding optimise_round
round-shorter i s = elim (Bool-cases (starts_with push_pop (drop i s.buffer))) [
  | inl e ↦ rw e (omega (arith, Removes-length (Removes-step 0 i s.buffer _ e nothing)))
  | inr e ↦ rw e (omega arith)
]

-- From round i on, as much fuel as the buffer has words less i is enough for the optimiser's loop:
-- more fuel gives the same state.
optimise_loop-enough :
    (fuel k i : ℕ) (s : State)
    → length s.buffer ≤ fuel + i
    → optimise_loop (fuel + k) i s ≡ optimise_loop fuel i s
unfolding optimise_loop
optimise_loop-enough zero zero i s h = refl
optimise_loop-enough zero (suc k) i s h =
    let e : 0 + suc k ≡ suc k = omega arith in
    rw (e, le→ltb (i + 8) (length s.buffer) (omega arith)) refl
optimise_loop-enough (suc fuel) k i s h =
    let e : suc fuel + k ≡ suc (fuel + k) = omega arith in
    let r = round-shorter i s in
    rw (e, optimise_loop-enough fuel k (i + 1) (optimise_round i s) (omega arith)) refl

same_value : (f g : ℕ → ℕ) (p r : ℕ) → g r ≡ f r → write g p (f p) r ≡ f r
same_value f g p r h = elim (Bool-cases (r == p)) [
  | inl e ↦ rw e (ap f (sym (==→eq r p e)))
  | inr e ↦ rw e h
]

restored :
    (f : ℕ → ℕ) (r : ℕ)
    → write (write (write (write f 22 (f 22)) 23 (f 23)) 24 (f 24)) 25 (f 25) r ≡ f r
restored f r = same_value f (write (write (write f 22 (f 22)) 23 (f 23)) 24 (f 24)) 25 r (
    same_value f (write (write f 22 (f 22)) 23 (f 23)) 24 r
      (same_value f (write f 22 (f 22)) 23 r (same_value f f 22 r refl)))

-- Running the stretch that the optimiser removes ends behind it with the stack, every register, the
-- four flags and the memory as before.
pub push_pop-idle :
    (calls : Calls) (c : Cpu)
    → Ends (run calls 9 (disassemble push_pop) 0 c) 8 (λ d.
      (d.stack ≡ c.stack)
      × ((r : ℕ) → d.regs r ≡ c.regs r)
      × (d.carry ≡ c.carry)
      × (d.zeroed ≡ c.zeroed)
      × (d.negative ≡ c.negative)
      × (d.sign ≡ c.sign)
      × (d.memory ≡ c.memory))
unfolding run disassemble
push_pop-idle calls c = (refl, (refl, λ r. restored c.regs r, refl, refl, refl, refl, refl))
