-- ===== src/GtkShell/Bonds/Named.antt =====
-- The search of src/gtkshell.cc for the pipe that an argument names.
use modglue.Common.{
  ℕ, suc, ◌+◌, ◌≡◌, ◌≢◌, refl, ap, ◌∙◌, true, false, inl, inr, ◌⊎◌, List, [], ◌∷◌, ◌++◌, none, some,
  Bytes, length, arith, equal, equal_iff, Bool-cases,
}
use modglue.GtkShell.{Module, index_of, BondEnd, found, no_module, no_pipe, find_end}

-- No module has this identifier, no name is this one.
abbrev pub LacksModule : Bytes → List Module → Type 0
LacksModule prog [] = Unit {0}
LacksModule prog (m ∷ ms) = (m.id ≢ prog) × LacksModule prog ms

abbrev pub LacksName : Bytes → List Bytes → Type 0
LacksName pip [] = Unit {0}
LacksName pip (x ∷ xs) = (x ≢ pip) × LacksName pip xs

-- The first place of a name.
pub record IsFirst (pip : Bytes) (names : List Bytes) (j : ℕ) : Type 0 where
  pub ahead : List Bytes
  pub behind : List Bytes
  pub split : names ≡ ahead ++ pip ∷ behind
  pub place : j ≡ length ahead
  pub unnamed : LacksName pip ahead

-- The first module with an identifier, and its place.
pub record IsModule (prog : Bytes) (ms : List Module) (i : ℕ) (m : Module) : Type 0 where
  pub ahead : List Module
  pub behind : List Module
  pub split : ms ≡ ahead ++ m ∷ behind
  pub place : i ≡ length ahead
  pub unnamed : LacksModule prog ahead
  pub id_is : m.id ≡ prog

-- What an end of a bond says of the names of a module and of its pipe.
abbrev pub IsEndOf : List Module → Bytes → Bytes → BondEnd → Type 0
IsEndOf ms prog pip (found i j) = (m : Module) × IsModule prog ms i m × IsFirst pip m.pipes j
IsEndOf ms prog pip (no_module x) = (x ≡ prog) × LacksModule prog ms
IsEndOf ms prog pip (no_pipe x y) =
    (x ≡ pip) × (y ≡ prog) × ((i : ℕ) × (m : Module) × IsModule prog ms i m × LacksName pip m.pipes)

equal-differs : (a b : Bytes) → equal a b ≡ false → a ≢ b
equal-differs a b h same = ground (equal_iff a b, arith)

equal-same : (a b : Bytes) → equal a b ≡ true → a ≡ b
equal-same a b h = ground (equal_iff a b, arith)

index_of_cases :
    (pip : Bytes) (names : List Bytes)
    → ((index_of pip names ≡ none) × LacksName pip names)
      ⊎ ((j : ℕ) × (index_of pip names ≡ some j) × IsFirst pip names j)
unfolding index_of
index_of_cases pip [] = inl (refl, tt)
index_of_cases pip (x ∷ names) = elim (Bool-cases (equal x pip)) [
  | inl this ↦ inr (
    0,
    rw this refl,
    record {
      ahead = [];
      behind = names;
      split = ap (λ (y : Bytes). y ∷ names) (equal-same x pip this);
      place = refl;
      unnamed = tt;
    },
  )
  | inr other ↦ elim (index_of_cases pip names) [
    | inl (missing, lacks) ↦ inl (rw (other, missing) refl, (equal-differs x pip other, lacks))
    | inr (j, there, is) ↦ inr (
      suc j,
      rw (other, there) refl,
      record {
        ahead = x ∷ is.ahead;
        behind = is.behind;
        split = ap (◌∷◌ x) is.split;
        place = ap suc is.place;
        unnamed = (equal-differs x pip other, is.unnamed);
      },
    )
  ]
]

-- The search from the place `i` on answers as the search from 0 on, with the place moved.
abbrev moved : ℕ → BondEnd → BondEnd
moved i (found n j) = found (i + n) j
moved i end = end

IsModule-suc :
    (prog : Bytes) (x : Module) (ms : List Module) (i : ℕ) (m : Module)
    → x.id ≢ prog
    → IsModule prog ms i m
    → IsModule prog (x ∷ ms) (suc i) m
IsModule-suc prog x ms i m other is = record {
  ahead = x ∷ is.ahead;
  behind = is.behind;
  split = ap (◌∷◌ x) is.split;
  place = ap suc is.place;
  unnamed = (other, is.unnamed);
  id_is = is.id_is;
}

IsEndOf-cons :
    (prog pip : Bytes) (x : Module) (ms : List Module) (end : BondEnd)
    → x.id ≢ prog
    → IsEndOf ms prog pip end
    → IsEndOf (x ∷ ms) prog pip (moved 1 end)
IsEndOf-cons prog pip x ms (found i j) other (m, is, first) =
    let next : 1 + i ≡ suc i = omega arith in
    (m, rw next (IsModule-suc prog x ms i m other is), first)
IsEndOf-cons prog pip x ms (no_module y) other (same, lacks) = (same, (other, lacks))
IsEndOf-cons prog pip x ms (no_pipe y z) other (same, same', (i, m, is, lacks)) =
    (same, same', (suc i, m, IsModule-suc prog x ms i m other is, lacks))

moved-moved : (i : ℕ) (end : BondEnd) → moved (i + 1) end ≡ moved i (moved 1 end)
moved-moved i (found n j) = let same : (i + 1) + n ≡ i + (1 + n) = omega arith in rw same refl
moved-moved i (no_module x) = refl
moved-moved i (no_pipe x y) = refl

-- The search from a place on, and what its answer says of the names.
find_end-IsEndOf :
    (i : ℕ) (prog pip : Bytes) (ms : List Module)
    → (end : BondEnd) × (find_end i prog pip ms ≡ moved i end) × IsEndOf ms prog pip end
unfolding find_end
find_end-IsEndOf i prog pip [] = (no_module prog, refl, (refl, tt))
find_end-IsEndOf i prog pip (m ∷ ms) = elim (Bool-cases (equal m.id prog)) [
  | inr other ↦
      let (end, answers, is) = find_end-IsEndOf (i + 1) prog pip ms in
      (
        moved 1 end,
        rw other (answers ∙ moved-moved i end),
        IsEndOf-cons prog pip m ms end (equal-differs m.id prog other) is,
      )
  | inl this ↦
      let here : IsModule prog (m ∷ ms) 0 m = record {
        ahead = [];
        behind = ms;
        split = refl;
        place = refl;
        unnamed = tt;
        id_is = equal-same m.id prog this;
      } in
      elim (index_of_cases pip m.pipes) [
        | inl (missing, lacks) ↦
            (no_pipe pip prog, rw (this, missing) refl, (refl, refl, (0, m, here, lacks)))
        | inr (j, there, first) ↦
            let same : i + 0 ≡ i = omega arith in
            (found 0 j, rw (this, there, same) refl, (m, here, first))
      ]
]

moved-zero : (end : BondEnd) → moved 0 end ≡ end
moved-zero (found n j) = let same : 0 + n ≡ n = omega arith in rw same refl
moved-zero (no_module x) = refl
moved-zero (no_pipe x y) = refl

-- What the search answers is what it says of the names.
pub find_end_is :
    (ms : List Module) (prog pip : Bytes) → IsEndOf ms prog pip (find_end 0 prog pip ms)
find_end_is ms prog pip =
    let (end, answers, is) = find_end-IsEndOf 0 prog pip ms in
    let same : find_end 0 prog pip ms ≡ end = answers ∙ moved-zero end in rw same is
