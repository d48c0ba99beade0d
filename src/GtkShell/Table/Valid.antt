-- ===== src/GtkShell/Table/Valid.antt =====
-- The bonds that `setup_tables_` of src/gtkshell.cc makes, and the fuel of its inner loop.
use modglue.Common.{
  ℕ, zero, suc, ◌+◌, ◌-◌, ◌≤◌, ◌<◌, ◌≡◌, refl, inl, inr, List, [], ◌∷◌, Option, none, some, Bytes,
  equal, ◌==◌, length, length-drop, Bool-cases, Option-cases, arith,
}
use mathlib.Core.Path.{subst}
use modglue.GtkShell.{
  Module, find_byte, before, behind, BondEnd, found, no_module, no_pipe, index_of, find_end,
  read_end, read_ends, found_ends,
}

abbrev IsBelow : ℕ → Option ℕ → Type 0
IsBelow size none = Unit {0}
IsBelow size (some n) = n < size

find_byte-IsBelow : (b : ℕ) (text : Bytes) → IsBelow (length text) (find_byte b text)
unfolding find_byte
find_byte-IsBelow b [] = tt
find_byte-IsBelow b (c ∷ text) = elim (Bool-cases (c == b)) [
  | inl here ↦ rw here (omega arith)
  | inr other ↦ elim (Option-cases (find_byte b text)) [
    | inl none_found ↦ rw (other, none_found) tt
    | inr (n, e) ↦
        let below : n < length text = rw e at (find_byte-IsBelow b text) in
        rw (other, e) (omega arith)
  ]
]

length-behind :
    (b : ℕ) (text : Bytes) {n : ℕ}
    → find_byte b text ≡ some n
    → length (behind b text) < length text
unfolding behind
length-behind b text {n} e =
    let below : n < length text = rw e at (find_byte-IsBelow b text) in
    rw (e, behind) (omega (arith, length-drop (n + 1) text))

-- The fuel is enough.
pub read_ends_enough :
    (fuel : ℕ) (ms : List Module) (subarg : Bytes)
    → length subarg < fuel
    → (ends : List BondEnd) × (read_ends fuel ms subarg ≡ some ends)
unfolding read_ends
read_ends_enough zero ms subarg h = absurd (omega arith)
read_ends_enough (suc fuel) ms subarg h = elim (Option-cases (find_byte b',' subarg)) [
  | inl last ↦ (read_end ms (before b',' subarg) ∷ [], rw (last, read_ends) refl)
  | inr (n, e) ↦
      let shorter = length-behind b',' subarg e in
      let (ends, more) = read_ends_enough fuel ms (behind b',' subarg) (omega arith) in
      (read_end ms (before b',' subarg) ∷ ends, rw (e, more, read_ends) refl)
]

-- How many pipes the module at a place has; none where there is no module.
abbrev pub pipes_at : List Module → ℕ → ℕ
pipes_at [] i = 0
pipes_at (m ∷ ms) zero = length m.pipes
pipes_at (m ∷ ms) (suc i) = pipes_at ms i

-- Each end of a bond is a pipe of a module that there is.
abbrev pub IsBond : List Module → List (ℕ × ℕ) → Type 0
IsBond ms [] = Unit {0}
IsBond ms ((i, j) ∷ ends) = (j < pipes_at ms i) × IsBond ms ends

abbrev pub AreBonds : List Module → List (List (ℕ × ℕ)) → Type 0
AreBonds ms [] = Unit {0}
AreBonds ms (b ∷ bonds) = IsBond ms b × AreBonds ms bonds

pub IsEnd : ℕ → List Module → BondEnd → Type 0
IsEnd base ms (found i j) = (base ≤ i) × (j < pipes_at ms (i - base))
IsEnd base ms (no_module prog) = Unit {0}
IsEnd base ms (no_pipe pip prog) = Unit {0}

index_of-IsBelow : (name : Bytes) (xs : List Bytes) → IsBelow (length xs) (index_of name xs)
unfolding index_of
index_of-IsBelow name [] = tt
index_of-IsBelow name (x ∷ xs) = elim (Bool-cases (equal x name)) [
  | inl here ↦ rw here (omega arith)
  | inr other ↦ elim (Option-cases (index_of name xs)) [
    | inl nowhere ↦ rw (other, nowhere) tt
    | inr (n, e) ↦
        let below : n < length xs = rw e at (index_of-IsBelow name xs) in
        rw (other, e) (omega arith)
  ]
]

later-IsEnd :
    (base : ℕ) (m : Module) (ms : List Module) (end : BondEnd)
    → IsEnd (base + 1) ms end
    → IsEnd base (m ∷ ms) end
unfolding IsEnd
later-IsEnd base m ms (found i j) (low, below) =
    let place : i - base ≡ suc (i - (base + 1)) = omega arith in (omega arith, rw place below)
later-IsEnd base m ms (no_module prog) h = tt
later-IsEnd base m ms (no_pipe pip prog) h = tt

find_end-IsEnd :
    (base : ℕ) (prog pip : Bytes) (ms : List Module) → IsEnd base ms (find_end base prog pip ms)
unfolding find_end IsEnd
find_end-IsEnd base prog pip [] = tt
find_end-IsEnd base prog pip (m ∷ ms) = elim (Bool-cases (equal m.id prog)) [
  | inl here ↦ elim (Option-cases (index_of pip m.pipes)) [
    | inl nowhere ↦ rw (here, nowhere) tt
    | inr (j, e) ↦
        let below : j < length m.pipes = rw e at (index_of-IsBelow pip m.pipes) in
        let place : base - base ≡ 0 = omega arith in rw (here, e) (omega arith, rw place below)
  ]
  | inr other ↦ rw other (
      later-IsEnd base m ms (find_end (base + 1) prog pip ms)
        (find_end-IsEnd (base + 1) prog pip ms))
]

abbrev pub AreEnds : List Module → List BondEnd → Type 0
AreEnds ms [] = Unit {0}
AreEnds ms (end ∷ ends) = IsEnd 0 ms end × AreEnds ms ends

pub found_ends-IsBond :
    (ms : List Module) (ends : List BondEnd) → AreEnds ms ends → IsBond ms (found_ends ends)
unfolding found_ends IsEnd
found_ends-IsBond ms [] h = tt
found_ends-IsBond ms (found i j ∷ ends) (h, hs) =
    let place : i - 0 ≡ i = omega arith in
    (subst (λ (k : ℕ). j < pipes_at ms k) place h.1, found_ends-IsBond ms ends hs)
found_ends-IsBond ms (no_module prog ∷ ends) (h, hs) = found_ends-IsBond ms ends hs
found_ends-IsBond ms (no_pipe pip prog ∷ ends) (h, hs) = found_ends-IsBond ms ends hs

pub read_ends-AreEnds :
    (fuel : ℕ) (ms : List Module) (subarg : Bytes) {ends : List BondEnd}
    → read_ends fuel ms subarg ≡ some ends
    → AreEnds ms ends
unfolding read_ends read_end
read_ends-AreEnds zero ms subarg h = cc
read_ends-AreEnds (suc fuel) ms subarg {ends} h =
    let first =
      find_end-IsEnd 0 (before b':' (before b',' subarg)) (behind b':' (before b',' subarg)) ms in
    elim (Option-cases (find_byte b',' subarg)) [
      | inl last ↦
          let same : read_end ms (before b',' subarg) ∷ [] ≡ ends =
            cc (rw (last, read_ends) at h) in
          subst (AreEnds ms) same (first, tt)
      | inr (n, e) ↦ elim (Option-cases (read_ends fuel ms (behind b',' subarg))) [
        | inl no_end ↦ cc (rw (e, no_end, read_ends) at h)
        | inr (more, others) ↦
            let same : read_end ms (before b',' subarg) ∷ more ≡ ends =
              cc (rw (e, others, read_ends) at h) in
            subst (AreEnds ms) same (first, read_ends-AreEnds fuel ms (behind b',' subarg) others)
      ]
    ]
