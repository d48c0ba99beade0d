-- ===== src/GtkShell.antt =====
-- The command line of src/gtkshell.cc: the arguments `--bond=` of `setup_tables_`, which name the
-- pipes of modules that are to be connected. The class of a module is not in the repository: what
-- the code uses of it is its identifier and the names of its pipes.
pub mod Bonds
pub mod Table
pub mod View
pub mod Tests
use modglue.Common.{
  ℕ, zero, suc, ◌+◌, ◌-◌, Bool, true, false, List, [], ◌∷◌, ◌++◌, Option, none, some, Bytes, codes,
  equal, ◌==◌, if◌then◌else◌, take, drop,
}

pub record Module : Type 0 where
  pub id : Bytes
  pub pipes : List Bytes

-- `find_first_of` for one byte.
unfoldable pub find_byte : ℕ → Bytes → Option ℕ
find_byte b [] = none
find_byte b (c ∷ text) =
    if c == b then some 0 else (elim (find_byte b text) [ none ↦ none | some n ↦ some (suc n) ])

-- The text before the first such byte, or the whole text.
unfoldable pub before : ℕ → Bytes → Bytes
unfolding find_byte
before b text = elim (find_byte b text) [ none ↦ text | some n ↦ take n text ]

-- The text behind the first such byte, or the whole text, since `npos + 1` is 0.
unfoldable pub behind : ℕ → Bytes → Bytes
unfolding find_byte
behind b text = elim (find_byte b text) [ none ↦ text | some n ↦ drop (n + 1) text ]

-- The place of a name in a list.
unfoldable pub index_of : Bytes → List Bytes → Option ℕ
index_of name [] = none
index_of name (x ∷ xs) =
    if equal x name
    then some 0
    else (elim (index_of name xs) [ none ↦ none | some n ↦ some (suc n) ])

-- One end of a bond: the place of its module and of its pipe there, or why there is none.
pub data BondEnd : Type 0 where
  found : ℕ → ℕ → BondEnd
  no_module : Bytes → BondEnd
  no_pipe : Bytes → Bytes → BondEnd

-- The search for a module and its pipe, from the place `i` on.
unfoldable pub find_end : ℕ → Bytes → Bytes → List Module → BondEnd
unfolding index_of
find_end i prog pip [] = no_module prog
find_end i prog pip (m ∷ ms) =
    if equal m.id prog
    then (elim (index_of pip m.pipes) [ none ↦ no_pipe pip prog | some j ↦ found i j ])
    else find_end (i + 1) prog pip ms

-- One round of the loop on `argument`.
unfoldable pub read_end : List Module → Bytes → BondEnd
unfolding before behind find_end
read_end ms argument = find_end 0 (before b':' argument) (behind b':' argument) ms

-- The loop, on the text behind `--bond=` and fuel for its rounds: one for each comma, and one.
unfoldable pub read_ends : ℕ → List Module → Bytes → Option (List BondEnd)
unfolding read_end
read_ends zero ms subarg = none
read_ends (suc fuel) ms subarg =
    let first = read_end ms (before b',' subarg) in
    let more = read_ends fuel ms (behind b',' subarg) in
    elim (find_byte b',' subarg) [
      | none ↦ some (first ∷ [])
      | some n ↦ elim more [ none ↦ none | some ends ↦ some (first ∷ ends) ]
    ]

-- The ends in `pps`; of the others a message tells.
unfoldable pub found_ends : List BondEnd → List (ℕ × ℕ)
found_ends [] = []
found_ends (found i j ∷ ends) = (i, j) ∷ found_ends ends
found_ends (_ ∷ ends) = found_ends ends
