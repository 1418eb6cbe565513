-- ===== src/Emit/Labels.antt =====
-- The labels that the optimiser of src/rtc_emit.c moves: each still marks the code that it marked.
use wait.Common.{ℕ, zero, suc, ◌+◌, ◌-◌, ◌*◌, ◌%◌, ◌^◌, ◌<◌, ◌≤◌, ◌≡◌, refl, ◌∙◌, subst, arith}
use wait.Common.{List, [], ◌∷◌, ◌++◌, length, take, drop, true, ltb, if◌then◌else◌, get_or}
use wait.Common.{lt→ltb, le→ltb}
use wait.Emit.{State, push_pop, starts_with, lower_labels, curr_pc, optimise_round}
use wait.Emit.Optimise.{Removes, nothing, Removes-step, drop-drop}

drop-take :
    (j i : ℕ) (ws t : List ℕ)
    → j ≤ i
    → i ≤ length ws
    → drop j (take i ws ++ t) ≡ take (i - j) (drop j ws) ++ t
drop-take zero i ws t h k = let e : i - 0 ≡ i = omega arith in rw e refl
drop-take (suc j) zero ws t h k = absurd (omega arith)
drop-take (suc j) (suc i) [] t h k = absurd (omega arith)
drop-take (suc j) (suc i) (w ∷ ws) t h k =
    let e : suc i - suc j ≡ i - j = omega arith in
    rw e (drop-take j i ws t (omega arith) (omega arith))

drop-behind :
    (i m j : ℕ) (ws t : List ℕ) → i ≤ length ws → i + m ≡ j → drop j (take i ws ++ t) ≡ drop m t
drop-behind zero m j ws t h e = let e' : j ≡ m = omega arith in rw e' refl
drop-behind (suc i) m j [] t h e = absurd (omega arith)
drop-behind (suc i) m zero (w ∷ ws) t h e = absurd (omega arith)
drop-behind (suc i) m (suc j) (w ∷ ws) t h e = drop-behind i m j ws t (omega arith) (omega arith)

lower_labels-get_or :
    (n l c : ℕ) (ps : List ℕ)
    → l < n
    → l < length ps
    → get_or (lower_labels n c ps) l 0
      ≡ (if ltb c (get_or ps l 0) then (get_or ps l 0 + 2 ^ 16 - 16) % 2 ^ 16 else get_or ps l 0)
unfolding lower_labels
lower_labels-get_or zero l c ps h k = absurd (omega arith)
lower_labels-get_or (suc n) l c [] h k = absurd (omega arith)
lower_labels-get_or (suc n) zero c (p ∷ ps) h k = refl
lower_labels-get_or (suc n) (suc l) c (p ∷ ps) h k =
    lower_labels-get_or n l c ps (omega arith) (omega arith)

-- A round at word `i`, where the stretch stands. `base` is the address of the buffer's first word,
-- and label `l` marks word `j` of the buffer.
module _ (i j l base : ℕ) (s : State) (here : starts_with push_pop (drop i s.buffer) ≡ true)
    (fits : i + 8 ≤ length s.buffer) (buffered : base + 2 * length s.buffer ≡ s.pc)
    (pc_word : s.pc < 2 ^ 16) (known : l < s.next_id) (stored : l < length s.block_pc)
    (marks : get_or s.block_pc l 0 ≡ base + 2 * j) where
  abbrev after : State
  after = optimise_round i s

  new_label : get_or after.block_pc l 0 ≡ (
      if ltb (base + 2 * i) (base + 2 * j)
      then (base + 2 * j + 2 ^ 16 - 16) % 2 ^ 16
      else base + 2 * j)
  unfolding optimise_round
  new_label =
      let e : curr_pc s.pc (length s.buffer) i ≡ base + 2 * i = omega arith in
      rw here (lower_labels-get_or s.next_id l _ s.block_pc known stored ∙ rw (e, marks) refl)

  -- In a round that removes a stretch at word i of the buffer, where the base is the address of the
  -- first buffered word, a label below `next_id` that marks the stretch's first word or one before
  -- it stays, and the code from it on loses that one stretch.
  pub label_before :
      j ≤ i
      → (get_or after.block_pc l 0 ≡ base + 2 * j)
        × Removes 1 (drop j s.buffer) (drop j after.buffer)
  unfolding optimise_round
  label_before h =
      let ws : List ℕ = drop j s.buffer in
      let e : starts_with push_pop (drop (i - j) ws) ≡ true =
        rw (drop-drop j (i - j) i s.buffer (omega arith)) here in
      let f : drop (i - j + 8) ws ≡ drop (i + 8) s.buffer =
        drop-drop j (i - j + 8) (i + 8) s.buffer (omega arith) in
      (
        new_label ∙ rw (le→ltb (base + 2 * i) (base + 2 * j) (omega arith)) refl,
        rw (here, drop-take j i s.buffer (drop (i + 8) s.buffer) h (omega arith))
            (subst (λ (t : List ℕ). Removes 1 ws (take (i - j) ws ++ t)) f
              (Removes-step 0 (i - j) ws _ e nothing)),
      )

  -- In a round that removes a stretch at word i of the buffer, where the base is the address of the
  -- first buffered word, a label below `next_id` that marks a buffered word behind the stretch moves
  -- down by 16 bytes and marks the same remaining code.
  pub label_behind :
      i + 8 ≤ j
      → j ≤ length s.buffer
      → (get_or after.block_pc l 0 ≡ base + 2 * (j - 8))
        × (drop (j - 8) after.buffer ≡ drop j s.buffer)
  unfolding optimise_round
  label_behind h k = (
    new_label ∙ rw (lt→ltb (base + 2 * i) (base + 2 * j) (omega arith)) (omega arith),
    rw here (
        drop-behind i (j - 8 - i) (j - 8) s.buffer (drop (i + 8) s.buffer) (omega arith)
          (omega arith)
        ∙ drop-drop (i + 8) (j - 8 - i) j s.buffer (omega arith)),
  )
