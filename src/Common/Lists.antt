-- ===== src/Common/Lists.antt =====
-- Lists measured and indexed by native numbers, under the library's names.
use Prim.Native.Nat.{ℕ, zero, suc, ◌+◌}
use mathlib.Core.Path.{◌≡◌, refl, ap}
use mathlib.Core.List.{List, [], ◌∷◌, ◌++◌}
use mathlib.Core.Option.{Option, none, some}
use native.Mathlib.Omega.{arith}

module _ {ℓ} {A : Type ℓ} where
  abbrev pub length : List A → ℕ
  length [] = 0
  length (x ∷ xs) = suc (length xs)

  abbrev pub get_elem? : List A → ℕ → Option A
  get_elem? [] i = none
  get_elem? (x ∷ xs) zero = some x
  get_elem? (x ∷ xs) (suc i) = get_elem? xs i

  abbrev pub get_or : List A → ℕ → A → A
  get_or [] i d = d
  get_or (x ∷ xs) zero d = x
  get_or (x ∷ xs) (suc i) d = get_or xs i d

  -- A write out of bounds changes nothing.
  abbrev pub set : List A → ℕ → A → List A
  set [] i v = []
  set (x ∷ xs) zero v = v ∷ xs
  set (x ∷ xs) (suc i) v = x ∷ set xs i v

  abbrev pub take : ℕ → List A → List A
  take zero xs = []
  take (suc n) [] = []
  take (suc n) (x ∷ xs) = x ∷ take n xs

  abbrev pub drop : ℕ → List A → List A
  drop zero xs = xs
  drop (suc n) [] = []
  drop (suc n) (x ∷ xs) = drop n xs

  abbrev pub replicate : ℕ → A → List A
  replicate zero a = []
  replicate (suc n) a = a ∷ replicate n a

  abbrev pub All {κ} : (A → Type κ) → List A → Type κ
  All P [] = Unit {κ}
  All P (x ∷ xs) = P x × All P xs

  pub length-append : (xs ys : List A) → length (xs ++ ys) ≡ length xs + length ys
  length-append [] ys = omega arith
  length-append (x ∷ xs) ys = omega (arith, length-append xs ys)

  pub get_or-drop :
      (n : ℕ) (xs : List A) (i k : ℕ) (d : A) → n + i ≡ k → get_or (drop n xs) i d ≡ get_or xs k d
  get_or-drop zero xs i k d e = let e' : i ≡ k = omega arith in rw e'
  get_or-drop (suc n) [] i k d e = refl
  get_or-drop (suc n) (x ∷ xs) i zero d e = absurd (omega arith)
  get_or-drop (suc n) (x ∷ xs) i (suc k) d e = get_or-drop n xs i k d (omega arith)

  -- The element behind a list's first part, and a write to it.
  pub get_elem?-middle :
      (xs : List A) (x : A) (ys : List A) (i : ℕ)
      → i ≡ length xs
      → get_elem? (xs ++ x ∷ ys) i ≡ some x
  get_elem?-middle [] x ys i e = rw e refl
  get_elem?-middle (z ∷ xs) x ys zero e = absurd (omega arith)
  get_elem?-middle (z ∷ xs) x ys (suc i) e = get_elem?-middle xs x ys i (omega arith)

  pub set-middle :
      (xs : List A) (x : A) (ys : List A) (i : ℕ) (v : A)
      → i ≡ length xs
      → set (xs ++ x ∷ ys) i v ≡ xs ++ v ∷ ys
  set-middle [] x ys i v e = rw e refl
  set-middle (z ∷ xs) x ys zero v e = absurd (omega arith)
  set-middle (z ∷ xs) x ys (suc i) v e = ap (λ r. z ∷ r) (set-middle xs x ys i v (omega arith))
