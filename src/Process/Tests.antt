-- ===== src/Process/Tests.antt =====
-- The theorems on `child_process`, at concrete inputs.
use modglue.Common.{ℕ, ◌+◌, ◌≡◌, refl, List, [], ◌∷◌, ◌++◌, some, codes, ok, arith}
use modglue.System.{ReadAnswer, got, interrupted}
use modglue.Pipe.Ledger.{count, closed_by}
use modglue.Process.{
  fd_pair, ChildProcess, new_child, Forked, fork, child, close_child, read_all, child_input,
  child_output, parent_side, child_side, standard_pipes,
}
use modglue.Process.Descriptors.{both, fork-close_child}
use modglue.System.Table.{Table, run_calls, AreClosed, AreFiles}
use modglue.Process.Streams.{fork-standard_pipes}
use modglue.Process.Reading.{delivered, read_all-delivered}

abbrev sockets : List (ℕ × ℕ)
sockets = (3, 4) ∷ (5, 6) ∷ (7, 8) ∷ []

abbrev running : ChildProcess
running = record {
  name = codes "cat";
  args = [];
  pipes =
      record { child_fd = 0; parent_fd = some 4; direction = child_input }
      ∷ record { child_fd = 1; parent_fd = some 5; direction = child_output }
      ∷ record { child_fd = 2; parent_fd = some 7; direction = child_output }
      ∷ [];
  pid = 42;
}

fork_cat :
    (f : Forked) × (fork sockets (child 42) (new_child (codes "cat") []) ≡ ok f)
    × (f.parent ≡ running)
unfolding fork new_child standard_pipes parent_side child_side
fork_cat = (_, refl, refl)

fork-close_child_example :
    count 3 (closed_by fork_cat.0.in_parent) + count 3 (closed_by (close_child fork_cat.0.parent).1)
    ≡ count 3 (both sockets)
fork-close_child_example =
    fork-close_child sockets (child 42) (new_child (codes "cat") []) 3 fork_cat.1

abbrev answers : List ReadAnswer
answers = got (codes "ab") ∷ interrupted ∷ got (codes "c") ∷ []

read_all-delivered_example :
    read_all (answers ++ got [] ∷ []) (codes "x") ≡ some (codes "x" ++ delivered answers)
read_all-delivered_example =
    read_all-delivered answers [] (codes "x")
      ((ground arith, (ground arith, tt)), ((ground arith, tt), tt))

abbrev files : Table
files n = some n

fork-standard_pipes_example :
    let t' = run_calls fork_cat.0.in_child files in
    AreFiles t' (0, 1, 2) (3, 6, 8)
    × AreClosed t' (3 ∷ 4 ∷ 5 ∷ 6 ∷ 7 ∷ 8 ∷ [])
    × (fork_cat.0.parent.pipes
        ≡ record (fd_pair 0 child_input) { parent_fd = some 4 }
          ∷ record (fd_pair 1 child_output) { parent_fd = some 5 }
          ∷ record (fd_pair 2 child_output) { parent_fd = some 7 }
          ∷ [])
fork-standard_pipes_example =
    fork-standard_pipes 3 4 5 6 7 8 (new_child (codes "cat") []) 42 files (3, 6, 8) (ground arith)
      (refl, refl, refl) (unfold new_child in refl) (unfold new_child in refl) fork_cat.1
