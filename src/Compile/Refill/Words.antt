-- ===== src/Compile/Refill/Words.antt =====
-- The words of a list of items, and rounds one after the other.
use wait.Common.{ℕ, ◌+◌, ◌*◌, ◌≤◌, ◌<◌, ◌≡◌, refl, ◌∙◌, subst, arith}
use wait.Common.{List, [], ◌∷◌, ◌++◌, length}
use wait.Emit.{State}
use wait.Compile.Refill.Round.{
  IsReady, Steps, Item, jmp, call, other, words_before, words_after, HoldsWords,
}

abbrev pub all_before : List Item → List ℕ
all_before [] = []
all_before (it ∷ its) = words_before it ++ all_before its

abbrev pub all_after : ℕ → List Item → List ℕ
all_after code_space [] = []
all_after code_space (it ∷ its) = words_after code_space it ++ all_after code_space its

pub length-after :
    (code_space : ℕ) (it : Item) → length (words_after code_space it) ≡ length (words_before it)
length-after code_space (jmp label pc) = refl
length-after code_space (call id address) = refl
length-after code_space (other w) = refl

pub some_words : (it : Item) → 0 < length (words_before it)
some_words (jmp label pc) = omega arith
some_words (call id address) = omega arith
some_words (other w) = omega arith

pub HoldsWords-split :
    (f : ℕ → ℕ) (ptr : ℕ) (vs ws : List ℕ)
    → HoldsWords f ptr (vs ++ ws)
    → HoldsWords f ptr vs × HoldsWords f (ptr + 2 * length vs) ws
HoldsWords-split f ptr [] ws h = (tt, subst (λ p. HoldsWords f p ws) (omega arith) h)
HoldsWords-split f ptr (v ∷ vs) ws h =
    let (a, b) = HoldsWords-split f (ptr + 2) vs ws h.1 in
    ((h.0, a), subst (λ p. HoldsWords f p ws) (omega arith) b)

pub HoldsWords-join :
    (f : ℕ → ℕ) (ptr : ℕ) (vs ws : List ℕ)
    → HoldsWords f ptr vs
    → HoldsWords f (ptr + 2 * length vs) ws
    → HoldsWords f ptr (vs ++ ws)
HoldsWords-join f ptr [] ws h k = subst (λ p. HoldsWords f p ws) (omega arith) k
HoldsWords-join f ptr (v ∷ vs) ws h k =
    (h.0, HoldsWords-join f (ptr + 2) vs ws h.1 (subst (λ p. HoldsWords f p ws) (omega arith) k))

pub HoldsWords-same :
    (f g : ℕ → ℕ) (ptr : ℕ) (ws : List ℕ)
    → ((a : ℕ) → ptr ≤ a → a < ptr + 2 * length ws → g a ≡ f a)
    → HoldsWords f ptr ws
    → HoldsWords g ptr ws
HoldsWords-same f g ptr [] same h = tt
HoldsWords-same f g ptr (w ∷ ws) same h = (
  omega (
    arith,
    h.0,
    same ptr (omega arith) (omega arith),
    same (ptr + 1) (omega arith) (omega arith),
  ),
  HoldsWords-same f g (ptr + 2) ws (λ a l k. same a (omega arith) (omega arith)) h.1,
)

pub Steps-none : (s : State) → IsReady s → Steps 0 s s
Steps-none s r = record {
  ready = r;
  labels = refl;
  moved = omega arith;
  region = refl;
  before = λ a h. refl;
  behind = λ a h. refl;
}

pub Steps-trans : (n k j : ℕ) {s t u : State} → j ≡ n + k → Steps n s t → Steps k t u → Steps j s u
Steps-trans n k j e a b =
    let m = a.moved in
    let m' = b.moved in
    record {
      ready = b.ready;
      labels = b.labels ∙ a.labels;
      moved = omega arith;
      region = b.region ∙ a.region;
      before = λ x h. b.before x (omega arith) ∙ a.before x h;
      behind = λ x h. b.behind x (omega arith) ∙ a.behind x (omega arith);
    }
