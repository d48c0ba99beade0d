-- ===== src/GtkShell/Table.antt =====
-- `setup_tables_` of src/gtkshell.cc: the modules and the bonds that the command line asks for.
pub mod Valid
pub mod Kept
use modglue.Common.{
  ℕ, zero, suc, ◌+◌, ◌-◌, ◌≤◌, ◌<◌, ◌≡◌, ◌≢◌, refl, inl, inr, Bool, true, false, not, List, [], ◌∷◌,
  ◌++◌, Option, none, some, Bytes, codes, equal, ltb, ◌==◌, if◌then◌else◌, take, drop, length,
  length-drop, Result, ok, throw, ◌>>=◌, >>=-eq-ok, Bool-cases, Option-cases, arith,
}
use modglue.ExtProcess.Setup.{assertion}
use modglue.GtkShell.{
  Module, find_byte, before, behind, BondEnd, found, index_of, find_end, read_end, read_ends,
  found_ends,
}

-- The modules, with the two flags of each, and `pps` of each bond. The current module is the last, if
-- there is one.
pub record Entry : Type 0 where
  pub loaded : Module
  pub start_on_input : Bool
  pub abort_on_failed_write : Bool

pub record Tables : Type 0 where
  pub no_window : Bool
  pub entries : List Entry
  pub bonds : List (List (ℕ × ℕ))

abbrev pub modules_of : List Entry → List Module
modules_of [] = []
modules_of (e ∷ es) = e.loaded ∷ modules_of es

-- A change of the last entry.
unfoldable pub change_last : (Entry → Entry) → List Entry → List Entry
change_last f [] = []
change_last f (e ∷ []) = f e ∷ []
change_last f (e ∷ e' ∷ es) = e ∷ change_last f (e' ∷ es)

-- A change of the current module, which without one is an access to a null pointer.
unfoldable pub on_current : Bytes → (Entry → Entry) → Tables → Result Tables
unfolding change_last
on_current message f t = elim t.entries [
  | [] ↦ throw message
  | ◌∷◌ e es ↦ ok (record t { entries = change_last f t.entries })
]

-- `--options`; `substr(10)` of a shorter text throws.
unfoldable pub read_option : Bytes → Tables → Result Tables
unfolding on_current
read_option arg t =
    if ltb (length arg) 10
    then throw (codes "out_of_range")
    else if equal (drop 10 arg) (codes "start_on_input")
    then on_current (codes "null pointer") (λ e. record e { start_on_input = true }) t
    else if equal (drop 10 arg) (codes "abort_on_failed_write")
    then on_current (codes "null pointer") (λ e. record e { abort_on_failed_write = true }) t
    else ok t

-- `--bond=`. Each round of its loop uses up a comma at least, so that there are fewer than the
-- argument's bytes.
unfoldable pub read_bond : Bytes → Tables → Tables
read_bond arg t = elim (read_ends (length arg + 1) (modules_of t.entries) (drop 7 arg)) [
  | none ↦ t
  | some ends ↦ record t { bonds = t.bonds ++ found_ends ends ∷ [] }
]

-- One argument. How a module is loaded is an argument, as that is not in the repository.
unfoldable pub read_table_arg : (Bytes → Module) → Bytes → Tables → Result Tables
unfolding read_option read_bond on_current
read_table_arg load arg t =
    if equal (take 5 arg) (codes "--run")
    then ok (record t { no_window = true })
    else if equal (take 9 arg) (codes "--module=")
    then ok (record t {
      entries =
          t.entries
          ++ record {
            loaded = load (drop 9 arg);
            start_on_input = false;
            abort_on_failed_write = false;
          }
            ∷ [];
    })
    else if equal (take 5 arg) (codes "--id=")
    then on_current assertion (λ e. record e { loaded = record e.loaded { id = drop 5 arg } }) t
    else if equal (take 9 arg) (codes "--options")
    then read_option arg t
    else if equal (take 7 arg) (codes "--bond=")
    then ok (read_bond arg t)
    else ok t

unfoldable pub setup_tables : (Bytes → Module) → List Bytes → Tables → Result Tables
unfolding read_table_arg
setup_tables load [] t = ok t
setup_tables load (arg ∷ args) t = do t' ← read_table_arg load arg t; setup_tables load args t'
