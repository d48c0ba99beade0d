-- ===== src/GtkShell/Bonds.antt =====
-- What is read of an argument `--bond=` that was written from names.
pub mod Named
use modglue.Common.{
  ℕ, zero, suc, ◌<◌, ◌≡◌, refl, ◌∙◌, List, [], ◌∷◌, ◌++◌, map, none, some, Bytes, arith, length,
  take-length-append,
}
use modglue.GtkShell.Bonds.Named.{IsEndOf, find_end_is}
use modglue.Main.Wiring.{Lacks, drop_behind}
use modglue.GtkShell.{Module, find_byte, before, behind, BondEnd, find_end, read_end, read_ends}

find_byte-Lacks :
    (b : ℕ) (text rest : Bytes)
    → Lacks b text
    → find_byte b (text ++ (b ∷ rest)) ≡ some (length text)
unfolding find_byte
find_byte-Lacks b [] rest h = ground arith
find_byte-Lacks b (c ∷ text) rest h = ground (arith, find_byte-Lacks b text rest h.1)

find_byte-none : (b : ℕ) (text : Bytes) → Lacks b text → find_byte b text ≡ none
unfolding find_byte
find_byte-none b [] h = refl
find_byte-none b (c ∷ text) h = ground (arith, find_byte-none b text h.1)

before-Lacks : (b : ℕ) (text rest : Bytes) → Lacks b text → before b (text ++ (b ∷ rest)) ≡ text
unfolding before
before-Lacks b text rest h =
    rw (find_byte-Lacks b text rest h, before) (take-length-append text (b ∷ rest))

behind-Lacks : (b : ℕ) (text rest : Bytes) → Lacks b text → behind b (text ++ (b ∷ rest)) ≡ rest
unfolding behind
behind-Lacks b text rest h = rw (find_byte-Lacks b text rest h, behind) (drop_behind text rest b)

before_whole : (b : ℕ) (text : Bytes) → Lacks b text → before b text ≡ text
unfolding before
before_whole b text h = rw (find_byte-none b text h, before) refl

-- The name of a pipe in an argument.
abbrev pub end_text : Bytes × Bytes → Bytes
end_text (prog, pip) = prog ++ (b':' ∷ pip)

-- Names between commas.
abbrev pub bond_text : Bytes × Bytes → List (Bytes × Bytes) → Bytes
bond_text e [] = end_text e
bond_text e (e' ∷ es) = end_text e ++ (b',' ∷ bond_text e' es)

-- A module's name has neither a colon nor a comma, and a pipe's no comma.
abbrev pub IsPlainEnd : Bytes × Bytes → Type 0
IsPlainEnd (prog, pip) = Lacks b':' prog × Lacks b',' prog × Lacks b',' pip

abbrev pub ArePlainEnds : List (Bytes × Bytes) → Type 0
ArePlainEnds [] = Unit {0}
ArePlainEnds (e ∷ es) = IsPlainEnd e × ArePlainEnds es

Lacks-append : (b : ℕ) (xs ys : Bytes) → Lacks b xs → Lacks b ys → Lacks b (xs ++ ys)
Lacks-append b [] ys h k = k
Lacks-append b (x ∷ xs) ys (h, hs) k = (h, Lacks-append b xs ys hs k)

Lacks-end_text : (e : Bytes × Bytes) → IsPlainEnd e → Lacks b',' (end_text e)
Lacks-end_text (prog, pip) (colon, comma, plain) =
    Lacks-append b',' prog (b':' ∷ pip) comma (ground arith, plain)

read_end-end_text :
    (ms : List Module) (e : Bytes × Bytes)
    → IsPlainEnd e
    → read_end ms (end_text e) ≡ find_end 0 e.0 e.1 ms
unfolding read_end
read_end-end_text ms (prog, pip) (colon, comma, plain) =
    rw (before-Lacks b':' prog pip colon, behind-Lacks b':' prog pip colon) refl

-- A round that is not the last.
read_ends_more :
    (ms : List Module) (fuel : ℕ) (subarg argument rest : Bytes) (ends : List BondEnd) {n : ℕ}
    → find_byte b',' subarg ≡ some n
    → before b',' subarg ≡ argument
    → behind b',' subarg ≡ rest
    → read_ends fuel ms rest ≡ some ends
    → read_ends (suc fuel) ms subarg ≡ some (read_end ms argument ∷ ends)
unfolding read_ends
read_ends_more ms fuel subarg argument rest ends at first next others =
    rw (at, next, others, first, read_ends) refl

-- Each name is searched for by itself.
read_ends-find_end :
    (ms : List Module) (e : Bytes × Bytes) (es : List (Bytes × Bytes)) (fuel : ℕ)
    → ArePlainEnds (e ∷ es)
    → length es < fuel
    → read_ends fuel ms (bond_text e es)
      ≡ some (map (λ (d : Bytes × Bytes). find_end 0 d.0 d.1 ms) (e ∷ es))
unfolding read_ends
read_ends-find_end ms e es zero plain enough = absurd (omega arith)
read_ends-find_end ms e [] (suc fuel) (plain, others) enough =
    let one = Lacks-end_text e plain in
    rw
      (
        find_byte-none b',' (end_text e) one,
        before_whole b',' (end_text e) one,
        read_end-end_text ms e plain,
        read_ends,
      )
      refl
read_ends-find_end ms e (e' ∷ es) (suc fuel) (plain, others) enough =
    let one = Lacks-end_text e plain in
    let rest = bond_text e' es in
    read_ends_more ms fuel (end_text e ++ (b',' ∷ rest)) (end_text e) rest _
      (find_byte-Lacks b',' (end_text e) rest one) (before-Lacks b',' (end_text e) rest one)
      (behind-Lacks b',' (end_text e) rest one)
      (read_ends-find_end ms e' es fuel others (omega arith))
    ∙ rw (read_end-end_text ms e plain) refl

-- The ends of a bond, each for a name.
abbrev pub AreEndsOf : List Module → List (Bytes × Bytes) → List BondEnd → Type 0
AreEndsOf ms [] [] = Unit {0}
AreEndsOf ms (e ∷ es) (end ∷ ends) = IsEndOf ms e.0 e.1 end × AreEndsOf ms es ends
AreEndsOf ms _ _ = ⊥

map-AreEndsOf :
    (ms : List Module) (es : List (Bytes × Bytes))
    → AreEndsOf ms es (map (λ (d : Bytes × Bytes). find_end 0 d.0 d.1 ms) es)
map-AreEndsOf ms [] = tt
map-AreEndsOf ms (e ∷ es) = (find_end_is ms e.0 e.1, map-AreEndsOf ms es)

-- An argument that names pipes, between commas, is read as one end for each name, in their order: the
-- place of the first module with that identifier and of its first pipe with that name, or the
-- message that no module has the identifier, or that the first one that has it has no such pipe. The
-- names of modules have no colon, and no name a comma; the fuel is more than the number of commas.
pub read_ends-bond_text :
    (ms : List Module) (e : Bytes × Bytes) (es : List (Bytes × Bytes)) (fuel : ℕ)
    → ArePlainEnds (e ∷ es)
    → length es < fuel
    → (ends : List BondEnd) × (read_ends fuel ms (bond_text e es) ≡ some ends)
      × AreEndsOf ms (e ∷ es) ends
read_ends-bond_text ms e es fuel plain enough =
    (_, read_ends-find_end ms e es fuel plain enough, map-AreEndsOf ms (e ∷ es))
