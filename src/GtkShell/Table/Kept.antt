-- ===== src/GtkShell/Table/Kept.antt =====
-- The whole command line of src/gtkshell.cc, and the bonds in its tables.
use modglue.Common.{
  ℕ, zero, suc, ◌+◌, ◌≤◌, ◌≡◌, refl, inl, inr, true, false, List, [], ◌∷◌, ◌++◌, Bytes, codes,
  equal, ltb, if◌then◌else◌, take, drop, length, Result, ok, >>=-eq-ok, Bool-cases, Option-cases,
  arith,
}
use mathlib.Core.Path.{subst}
use modglue.ExtProcess.Setup.{assertion}
use modglue.GtkShell.{Module, read_ends, found_ends}
use modglue.GtkShell.Table.{
  Entry, Tables, modules_of, change_last, on_current, read_option, read_bond, read_table_arg,
  setup_tables,
}
use modglue.GtkShell.Table.Valid.{pipes_at, IsBond, AreBonds, found_ends-IsBond, read_ends-AreEnds}

ok-injective {ℓ} : {A : Type ℓ} {a b : A} → ◌≡◌ {A = Result A} (ok a) (ok b) → a ≡ b
ok-injective h = cc

-- Each module keeps its place and has no fewer pipes.
abbrev pub Grows : List Module → List Module → Type 0
Grows ms ms' = (i : ℕ) → pipes_at ms i ≤ pipes_at ms' i

IsBond-Grows : (ms ms' : List Module) (b : List (ℕ × ℕ)) → Grows ms ms' → IsBond ms b → IsBond ms' b
IsBond-Grows ms ms' [] g h = tt
IsBond-Grows ms ms' ((i, j) ∷ b) g (h, hs) =
    let more = g i in (omega arith, IsBond-Grows ms ms' b g hs)

pub AreBonds-Grows :
    (ms ms' : List Module) (bonds : List (List (ℕ × ℕ)))
    → Grows ms ms'
    → AreBonds ms bonds
    → AreBonds ms' bonds
AreBonds-Grows ms ms' [] g h = tt
AreBonds-Grows ms ms' (b ∷ bonds) g (h, hs) =
    (IsBond-Grows ms ms' b g h, AreBonds-Grows ms ms' bonds g hs)

pub AreBonds-append :
    (ms : List Module) (bonds : List (List (ℕ × ℕ))) (b : List (ℕ × ℕ))
    → AreBonds ms bonds
    → IsBond ms b
    → AreBonds ms (bonds ++ b ∷ [])
AreBonds-append ms [] b h k = (k, tt)
AreBonds-append ms (c ∷ bonds) b (h, hs) k = (h, AreBonds-append ms bonds b hs k)

append-Grows : (es : List Entry) (e : Entry) → Grows (modules_of es) (modules_of (es ++ e ∷ []))
append-Grows [] e i = omega arith
append-Grows (x ∷ es) e zero = omega arith
append-Grows (x ∷ es) e (suc i) = append-Grows es e i

-- A change that keeps the pipes.
KeepsPipes : (Entry → Entry) → Type 0
KeepsPipes f = (e : Entry) → (f e).loaded.pipes ≡ e.loaded.pipes

change_last-Grows :
    (f : Entry → Entry) (es : List Entry)
    → KeepsPipes f
    → Grows (modules_of es) (modules_of (change_last f es))
unfolding change_last KeepsPipes
change_last-Grows f [] k i = omega arith
change_last-Grows f (e ∷ []) k zero = rw (k e) (omega arith)
change_last-Grows f (e ∷ []) k (suc i) = omega arith
change_last-Grows f (e ∷ e' ∷ es) k zero = omega arith
change_last-Grows f (e ∷ e' ∷ es) k (suc i) = change_last-Grows f (e' ∷ es) k i

-- What holds of the tables.
abbrev pub IsLinked : Tables → Type 0
IsLinked t = AreBonds (modules_of t.entries) t.bonds

on_current-IsLinked :
    (message : Bytes) (f : Entry → Entry) (t : Tables) {t' : Tables}
    → KeepsPipes f
    → on_current message f t ≡ ok t'
    → IsLinked t
    → IsLinked t'
unfolding on_current
on_current-IsLinked message f t {t'} k h linked =
    let changed = record t { entries = change_last f t.entries } in
    let same : changed ≡ t' = ground arith in
    subst IsLinked same (
      AreBonds-Grows (modules_of t.entries) (modules_of (change_last f t.entries)) t.bonds
        (change_last-Grows f t.entries k) linked)

read_bond-IsLinked : (arg : Bytes) (t : Tables) → IsLinked t → IsLinked (read_bond arg t)
unfolding read_bond
read_bond-IsLinked arg t linked =
    let ms = modules_of t.entries in
    elim (Option-cases (read_ends (length arg + 1) ms (drop 7 arg))) [
      | inl stuck ↦ rw (stuck, read_bond) linked
      | inr (ends, e) ↦
          rw (e, read_bond)
            (AreBonds-append ms t.bonds (found_ends ends) linked
              (found_ends-IsBond ms ends (read_ends-AreEnds (length arg + 1) ms (drop 7 arg) e)))
    ]

read_option-IsLinked :
    (arg : Bytes) (t : Tables) {t' : Tables} → read_option arg t ≡ ok t' → IsLinked t → IsLinked t'
unfolding read_option KeepsPipes
read_option-IsLinked arg t {t'} h linked = elim (Bool-cases (ltb (length arg) 10)) [
  | inl short ↦ cc (rw (short, read_option) at h)
  | inr long ↦ elim (Bool-cases (equal (drop 10 arg) (codes "start_on_input"))) [
    | inl starts ↦
        on_current-IsLinked _ _ t (λ e. refl) (rw (long, starts, read_option) at h) linked
    | inr other ↦ elim (Bool-cases (equal (drop 10 arg) (codes "abort_on_failed_write"))) [
      | inl aborts ↦
          on_current-IsLinked _ _ t (λ e. refl) (rw (long, other, aborts, read_option) at h) linked
      | inr unknown ↦
          let same : t ≡ t' = cc (rw (long, other, unknown, read_option) at h) in
          subst IsLinked same linked
    ]
  ]
]

-- The arguments that no entry is changed by, or all are kept by.
module _ (load : Bytes → Module) (arg : Bytes) (t : Tables) where
  add_module-IsLinked :
      IsLinked t
      → IsLinked (record t {
        entries =
            t.entries
            ++ record {
              loaded = load (drop 9 arg);
              start_on_input = false;
              abort_on_failed_write = false;
            }
              ∷ [];
      })
  add_module-IsLinked linked =
      AreBonds-Grows (modules_of t.entries) _ t.bonds (append-Grows t.entries _) linked

  other_arg-IsLinked :
      {t' : Tables}
      → (if equal (take 9 arg) (codes "--options")
          then read_option arg t
          else if equal (take 7 arg) (codes "--bond=")
          then ok (read_bond arg t)
          else ok t)
        ≡ ok t'
      → IsLinked t
      → IsLinked t'
  other_arg-IsLinked {t'} h linked = elim (Bool-cases (equal (take 9 arg) (codes "--options"))) [
    | inl option ↦ read_option-IsLinked arg t (rw option at h) linked
    | inr other ↦ elim (Bool-cases (equal (take 7 arg) (codes "--bond="))) [
      | inl bond ↦
          let same : read_bond arg t ≡ t' = cc (rw (other, bond) at h) in
          subst IsLinked same (read_bond-IsLinked arg t linked)
      | inr unknown ↦
          let same : t ≡ t' = cc (rw (other, unknown) at h) in subst IsLinked same linked
    ]
  ]

  read_table_arg-IsLinked :
      {t' : Tables} → read_table_arg load arg t ≡ ok t' → IsLinked t → IsLinked t'
  unfolding read_table_arg KeepsPipes
  read_table_arg-IsLinked {t'} h linked = elim (Bool-cases (equal (take 5 arg) (codes "--run"))) [
    | inl runs ↦
        let same : record t { no_window = true } ≡ t' = cc (rw (runs, read_table_arg) at h) in
        subst IsLinked same linked
    | inr no_run ↦ elim (Bool-cases (equal (take 9 arg) (codes "--module="))) [
      | inl adds ↦
          subst IsLinked (ok-injective (rw (no_run, adds, read_table_arg) at h))
            (add_module-IsLinked linked)
      | inr no_module ↦ elim (Bool-cases (equal (take 5 arg) (codes "--id="))) [
        | inl names ↦
            on_current-IsLinked assertion _ t (λ e. refl)
              (rw (no_run, no_module, names, read_table_arg) at h) linked
        | inr no_id ↦ other_arg-IsLinked (rw (no_run, no_module, no_id, read_table_arg) at h) linked
      ]
    ]
  ]

-- Whatever the command line is, if it is read without an exception, then each end of each bond that
-- it asks for is a pipe of one of the modules that were loaded, also after later arguments. This
-- holds where it held at the start, as it does of tables without bonds.
pub setup_tables-IsLinked :
    (load : Bytes → Module) (args : List Bytes) (t : Tables) {t' : Tables}
    → setup_tables load args t ≡ ok t'
    → IsLinked t
    → IsLinked t'
unfolding setup_tables
setup_tables-IsLinked load [] t {t'} h linked = let same : t ≡ t' = cc in subst IsLinked same linked
setup_tables-IsLinked load (arg ∷ args) t h linked =
    let (t1, first, rest) = >>=-eq-ok (read_table_arg load arg t) _ h in
    setup_tables-IsLinked load args t1 rest (read_table_arg-IsLinked load arg t first linked)
