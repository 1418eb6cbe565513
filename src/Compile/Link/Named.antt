-- ===== src/Compile/Link/Named.antt =====
-- src/compile.c: which function an import is linked to.
use wait.Common.{ℕ, ◌≡◌, ◌≢◌, refl, sym, ap, ◌⊎◌, inl, inr, List, [], ◌∷◌, ◌++◌, All, ◌==◌, arith}
use wait.Common.{Option, none, some, false, ok, panic, Bool-cases, ==→eq}
use wait.Leb.{mystrcmp}
use wait.Compile.Link.{c_text, find_import, link_import}

mystrcmp-eq : (s t : List ℕ) → mystrcmp s t ≡ 0 → s ≡ t
unfolding mystrcmp
mystrcmp-eq [] [] e = refl
mystrcmp-eq [] (d ∷ t) e = absurd (omega arith)
mystrcmp-eq (c ∷ s) [] e = absurd (omega arith)
mystrcmp-eq (c ∷ s) (d ∷ t) e = ground (arith, mystrcmp-eq s t)

mystrcmp_refl : (s : List ℕ) → mystrcmp s s ≡ 0
unfolding mystrcmp
mystrcmp_refl [] = refl
mystrcmp_refl (c ∷ s) = ground (arith, mystrcmp_refl s)

abbrev pub Import : Type 0
Import = List ℕ × ℕ

-- The name stands in no entry.
abbrev pub IsMissing : List ℕ → List Import → Type 0
IsMissing name = All (λ e. e.0 ≢ name)

-- The last entry with the name has the address.
pub record IsLast (name : List ℕ) (address : ℕ) (imports : List Import) : Type 0 where
  pub before : List Import
  pub behind : List Import
  pub split : imports ≡ before ++ (name, address) ∷ behind
  pub missing : IsMissing name behind

IsLast-cons :
    (name : List ℕ) (address : ℕ) (e : Import) (imports : List Import)
    → IsLast name address imports
    → IsLast name address (e ∷ imports)
IsLast-cons name address e imports l = record {
  before = e ∷ l.before;
  behind = l.behind;
  split = ap (λ r. e ∷ r) l.split;
  missing = l.missing;
}

not_named : (name n : List ℕ) → (mystrcmp name n == 0) ≡ false → n ≢ name
not_named name n different q =
    let e = mystrcmp_refl name in let f : mystrcmp name n ≡ 0 = rw q e in absurd (ground arith)

find_import_lem :
    (name : List ℕ) (imports : List Import) (found : Option ℕ)
    → ((find_import name imports found ≡ found) × IsMissing name imports)
      ⊎ ((address : ℕ) × (find_import name imports found ≡ some address)
          × IsLast name address imports)
unfolding find_import
find_import_lem name [] found = inl (refl, tt)
find_import_lem name ((n, a) ∷ rest) found = elim (Bool-cases (mystrcmp name n == 0)) [
  | inl same ↦
      let equal = mystrcmp-eq name n (==→eq (mystrcmp name n) 0 same) in
      rw same (elim (find_import_lem name rest (some a)) [
        | inl (e, m) ↦ inr (
          a,
          e,
          record {
            before = [];
            behind = rest;
            split = ap (λ m. (m, a) ∷ rest) (sym equal);
            missing = m;
          },
        )
        | inr (address, e, l) ↦ inr (address, e, IsLast-cons name address (n, a) rest l)
      ])
  | inr different ↦
      let ne : n ≢ name = λ q. not_named name n different q in
      rw different (elim (find_import_lem name rest found) [
        | inl (e, m) ↦ inl (e, (ne, m))
        | inr (address, e, l) ↦ inr (address, e, IsLast-cons name address (n, a) rest l)
      ])
]

-- Linking an import gives the address in the last entry of the table whose name is the import's name
-- up to its first zero byte, and stops where no entry has this name.
pub link_import_lem :
    (imports : List Import) (name : List ℕ)
    → ((link_import imports name ≡ panic) × IsMissing (c_text name) imports)
      ⊎ ((address : ℕ) × (link_import imports name ≡ ok address)
          × IsLast (c_text name) address imports)
unfolding link_import
link_import_lem imports name = elim (find_import_lem (c_text name) imports none) [
  | inl (e, m) ↦ inl (rw e refl, m)
  | inr (address, e, l) ↦ inr (address, rw e refl, l)
]
