-- ===== src/GtkShell/Tests.antt =====
-- The theorem on the bonds of the command line, at a concrete input.
use modglue.Common.{◌≡◌, refl, List, [], ◌∷◌, some, Bytes, codes, arith, false, ok, equal}
use modglue.GtkShell.{Module, BondEnd, read_ends, index_of, find_byte, found_ends}
use modglue.GtkShell.Table.{Tables, setup_tables, change_last}
use modglue.GtkShell.Table.Kept.{IsLinked, setup_tables-IsLinked}
use modglue.GtkShell.Bonds.{bond_text, AreEndsOf, read_ends-bond_text}

abbrev modules : List Module
modules =
    record { id = codes "wget"; pipes = codes "stdin" ∷ codes "stdout" ∷ [] }
    ∷ record { id = codes "sed"; pipes = codes "stdin" ∷ [] }
    ∷ []

read_ends-bond_text_example :
    (ends : List BondEnd) × (read_ends 5 modules
        (bond_text (codes "wget", codes "stdout") ((codes "sed", codes "stdin") ∷ []))
      ≡ some ends)
    × AreEndsOf modules ((codes "wget", codes "stdout") ∷ (codes "sed", codes "stdin") ∷ []) ends
read_ends-bond_text_example =
    read_ends-bond_text modules (codes "wget", codes "stdout") ((codes "sed", codes "stdin") ∷ []) 5
      (ground arith) (omega arith)

abbrev load : Bytes → Module
load name = record { id = name; pipes = codes "stdin" ∷ codes "stdout" ∷ [] }

abbrev no_tables : Tables
no_tables = record { no_window = false; entries = []; bonds = [] }

abbrev command_line : List Bytes
command_line =
    codes "--module=wget"
    ∷ codes "--module=sed"
    ∷ codes "--bond=wget:stdout,sed:stdin"
    ∷ codes "--id=filter"
    ∷ []

read_tables : (t : Tables) × (setup_tables load command_line no_tables ≡ ok t)
unfolding setup_tables equal read_ends index_of find_byte change_last found_ends
read_tables = (_, refl)

setup_tables-IsLinked_example : IsLinked read_tables.0
setup_tables-IsLinked_example = setup_tables-IsLinked load command_line no_tables read_tables.1 tt
