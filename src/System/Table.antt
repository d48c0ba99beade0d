-- ===== src/System/Table.antt =====
-- The kernel's table of a process's descriptors, as POSIX describes it: what `close` and `dup2` do to
-- it. It is a specification, and no code of the repository.
use modglue.Common.{
  ℕ, ◌≤◌, ◌≡◌, ◌≢◌, refl, List, [], ◌∷◌, ◌++◌, Option, none, some, ◌==◌, if◌then◌else◌,
}
use mathlib.Core.Path.{ap}
use modglue.System.{Call, closes, dups}

-- The open file behind each descriptor, if it is open; files stand for themselves as numbers.
abbrev pub Table : Type 0
Table = ℕ → Option ℕ

abbrev pub assign : Table → ℕ → Option ℕ → Table
assign t fd file n = if fd == n then file else t n

-- A number that is not open is refused, and the table stays.
abbrev pub assign_file : Option ℕ → ℕ → Table → Table
assign_file none to t = t
assign_file (some file) to t = assign t to (some file)

abbrev pub run_call : Call → Table → Table
run_call (closes fd) t = assign t fd none
run_call (dups none to) t = t
run_call (dups (some from) to) t = assign_file (t from) to t
run_call _ t = t

unfoldable pub run_calls : List Call → Table → Table
run_calls [] t = t
run_calls (c ∷ calls) t = run_calls calls (run_call c t)

pub run_calls-append :
    (xs ys : List Call) (t : Table) → run_calls (xs ++ ys) t ≡ run_calls ys (run_calls xs t)
unfolding run_calls
run_calls-append [] ys t = refl
run_calls-append (x ∷ xs) ys t = run_calls-append xs ys (run_call x t)

-- Descriptors of their own, none of them one of the standard streams.
abbrev pub IsNone : ℕ → List ℕ → Type 0
IsNone n [] = Unit {0}
IsNone n (m ∷ ms) = (n ≢ m) × IsNone n ms

abbrev pub AreFresh : List ℕ → Type 0
AreFresh [] = Unit {0}
AreFresh (n ∷ ns) = (3 ≤ n) × IsNone n ns × AreFresh ns

-- None of the descriptors is open.
abbrev pub AreClosed : Table → List ℕ → Type 0
AreClosed t [] = Unit {0}
AreClosed t (n ∷ ns) = (t n ≡ none) × AreClosed t ns

-- The files behind the descriptors that become the standard streams.
abbrev pub AreFiles : Table → ℕ × ℕ × ℕ → ℕ × ℕ × ℕ → Type 0
AreFiles t (n0, n1, n2) (f0, f1, f2) = (t n0 ≡ some f0) × (t n1 ≡ some f1) × (t n2 ≡ some f2)

-- `dup2` of a descriptor that is open.
pub run_dup :
    (from to file : ℕ) (calls : List Call) (t : Table)
    → t from ≡ some file
    → run_calls (dups (some from) to ∷ calls) t ≡ run_calls calls (assign t to (some file))
unfolding run_calls
run_dup from to file calls t e = ap (λ (o : Option ℕ). run_calls calls (assign_file o to t)) e
