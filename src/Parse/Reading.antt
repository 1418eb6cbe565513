-- ===== src/Parse/Reading.antt =====
-- src/parse.c reads its tables entry by entry: rules for these loops, and for numbers of one byte.
use wait.Common.{ℕ, zero, suc, ◌+◌, ◌≤◌, ◌<◌, ◌≡◌, sym, ap, ◌∙◌, subst, arith}
use wait.Common.{
  List, [], ◌∷◌, ◌++◌, append-nil, append_assoc, All, length, length-append, Result, ok, >>=-eq-ok,
}
use wait.Leb.{Flash, read_leb_u7}
use wait.Leb.Encoding.{Holds}
use wait.Leb.Unsigned.{read_leb_unsigned-IsLeb}
use wait.Parse.{for_each}

-- What each round keeps holds at the end of the loop.
pub for_each_inv {ℓ κ} :
    {S : Type ℓ} (P : S → Type κ) (body : ℕ → S → Result S)
    → ((i : ℕ) (s s' : S) → P s → body i s ≡ ok s' → P s')
    → (n i : ℕ) (s s' : S) → for_each n i body s ≡ ok s'
    → P s
    → P s'
unfolding for_each
for_each_inv P body keep zero i s s' e h = subst P (cc) h
for_each_inv P body keep (suc n) i s s' e h =
    let (t, e1, e2) = >>=-eq-ok (body i s) _ e in
    for_each_inv P body keep n (i + 1) t s' e2 (keep i s t h e1)

pub Holds-append :
    (flash : Flash) (xs ys : List ℕ) (ptr : ℕ)
    → Holds flash ptr (xs ++ ys)
    → Holds flash ptr xs × Holds flash (ptr + length xs) ys
Holds-append flash [] ys ptr h = (tt, subst (λ p. Holds flash p ys) (omega arith) h)
Holds-append flash (x ∷ xs) ys ptr h =
    let (a, b) = Holds-append flash xs ys (ptr + 1) h.1 in
    ((h.0, a), subst (λ p. Holds flash p ys) (omega arith) b)

module _ {ℓ} {Entry : Type ℓ} (encode : Entry → List ℕ) where
  -- The entries one behind the other.
  abbrev pub encode_all : List Entry → List ℕ
  encode_all [] = []
  encode_all (x ∷ xs) = encode x ++ encode_all xs

  -- What an entry does to the state may depend on its number and on its address.
  module _ {S : Type 0} (put : ℕ → ℕ → Entry → S → S) (Fits : ℕ → Entry → S → Type 0) where
    abbrev pub put_all : ℕ → ℕ → List Entry → S → S
    put_all i ptr [] s = s
    put_all i ptr (x ∷ xs) s = put_all (i + 1) (ptr + length (encode x)) xs (put i ptr x s)

    abbrev pub AllFit : ℕ → ℕ → List Entry → S → Type 0
    AllFit i ptr [] s = Unit
    AllFit i ptr (x ∷ xs) s =
        Fits i x s × AllFit (i + 1) (ptr + length (encode x)) xs (put i ptr x s)

    -- A loop whose rounds read one entry each reads all of them.
    pub for_each-reads :
        (flash : Flash) (end : ℕ) (body : ℕ → S × ℕ → Result (S × ℕ))
        → ((i : ℕ) (x : Entry) (s : S) (ptr : ℕ)
            → Fits i x s
            → Holds flash ptr (encode x)
            → ptr + length (encode x) ≤ end
            → body i (s, ptr) ≡ ok (put i ptr x s, ptr + length (encode x)))
        → (xs : List Entry) (i : ℕ) (s : S) (ptr : ℕ) → AllFit i ptr xs s
        → Holds flash ptr (encode_all xs)
        → ptr + length (encode_all xs) ≤ end
        → for_each (length xs) i body (s, ptr)
          ≡ ok (put_all i ptr xs s, ptr + length (encode_all xs))
    unfolding for_each
    for_each-reads flash end body step [] i s ptr fits at room = ap (λ p. ok (s, p)) (omega arith)
    for_each-reads flash end body step (x ∷ xs) i s ptr fits at room =
        let (a, b) = Holds-append flash (encode x) (encode_all xs) ptr at in
        let l = length-append (encode x) (encode_all xs) in
        rw (step i x s ptr fits.0 a (omega arith)) (
          for_each-reads flash end body step xs (i + 1) (put i ptr x s) (ptr + length (encode x))
            fits.1 b (omega arith)
          ∙ ap (λ p. ok (put_all (i + 1) (ptr + length (encode x)) xs (put i ptr x s), p))
              (omega arith))

-- Where the entries are put at the end of a list, the list is the old one and the entries read.
module _ {A B : Type 0} (encode : A → List ℕ) (f : ℕ → ℕ → A → B) where
  abbrev pub map_from : ℕ → ℕ → List A → List B
  map_from i ptr [] = []
  map_from i ptr (x ∷ xs) = f i ptr x ∷ map_from (i + 1) (ptr + length (encode x)) xs

  abbrev pub put_last : ℕ → ℕ → A → List B → List B
  put_last i ptr x ys = ys ++ f i ptr x ∷ []

  put_all-put_last :
      (Fits : ℕ → A → List B → Type 0) (i ptr : ℕ) (xs : List A) (ys : List B)
      → put_all encode put_last Fits i ptr xs ys ≡ ys ++ map_from i ptr xs
  put_all-put_last Fits i ptr [] ys = sym (append-nil ys)
  put_all-put_last Fits i ptr (x ∷ xs) ys =
      put_all-put_last Fits (i + 1) (ptr + length (encode x)) xs (ys ++ f i ptr x ∷ [])
      ∙ append_assoc ys (f i ptr x ∷ []) (map_from (i + 1) (ptr + length (encode x)) xs)

  AllFit-All :
      (P : A → Type 0) (i ptr : ℕ) (xs : List A) (ys : List B)
      → All P xs
      → AllFit encode put_last (λ i x s. P x) i ptr xs ys
  AllFit-All P i ptr [] ys h = tt
  AllFit-All P i ptr (x ∷ xs) ys h =
      (h.0, AllFit-All P (i + 1) (ptr + length (encode x)) xs (ys ++ f i ptr x ∷ []) h.1)

  pub for_each-collects :
      (P : A → Type 0) (flash : Flash) (end : ℕ) (body : ℕ → List B × ℕ → Result (List B × ℕ))
      → ((i : ℕ) (x : A) (ys : List B) (ptr : ℕ)
          → P x
          → Holds flash ptr (encode x)
          → ptr + length (encode x) ≤ end
          → body i (ys, ptr) ≡ ok (ys ++ f i ptr x ∷ [], ptr + length (encode x)))
      → (n : ℕ) (xs : List A) (ptr : ℕ) → n ≡ length xs
      → All P xs
      → Holds flash ptr (encode_all encode xs)
      → ptr + length (encode_all encode xs) ≤ end
      → for_each n 0 body ([], ptr) ≡ ok (map_from 0 ptr xs, ptr + length (encode_all encode xs))
  for_each-collects P flash end body step n xs ptr num h at room =
      ap (λ k. for_each k 0 body ([], ptr)) num
      ∙ for_each-reads encode put_last (λ i x s. P x) flash end body step xs 0 [] ptr
          (AllFit-All P 0 ptr xs [] h) at room
      ∙ ap (λ ys. ok (ys, ptr + length (encode_all encode xs)))
          (put_all-put_last (λ i x s. P x) 0 ptr xs [])

-- A number below 128 is its own encoding.
pub read_leb_u7-byte :
    (flash : Flash) (ptr end b : ℕ)
    → flash ptr ≡ b
    → b < 128
    → ptr < end
    → read_leb_u7 flash ptr end ≡ ok (b, ptr + 1)
unfolding read_leb_u7
read_leb_u7-byte flash ptr end b at small room =
    rw
      (read_leb_unsigned-IsLeb flash 7 (b ∷ []) ptr end small (at, tt) (omega arith) (omega arith)
        (omega arith))
      (ap (λ v. ok (v, ptr + 1)) (omega arith))
