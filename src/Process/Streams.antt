-- ===== src/Process/Streams.antt =====
-- The standard streams of a program that `child_process::fork` has started.
use modglue.Common.{ℕ, ◌≡◌, List, [], ◌∷◌, ◌++◌, some, Bytes, ok, arith}
use modglue.System.{Call, closes, dups, execs}
use modglue.System.Table.{Table, run_calls, AreFresh, AreClosed, AreFiles}
use modglue.Process.{
  ChildProcess, child, Forked, forked, fork, standard_pipes, fd_pair, child_side, parent_side,
  child_input, child_output,
}

-- The descriptors of the three calls of `pipe`: the ends to read, and the ends to write.
module _ (r0 w0 r1 w1 r2 w2 : ℕ) where
  abbrev fds : List (ℕ × ℕ)
  fds = (r0, w0) ∷ (r1, w1) ∷ (r2, w2) ∷ []

  -- What the child does before `execvp`.
  abbrev standard_calls : List Call
  standard_calls =
      dups (some r0) 0
      ∷ closes w0
      ∷ closes r0
      ∷ dups (some w1) 1
      ∷ closes r1
      ∷ closes w1
      ∷ dups (some w2) 2
      ∷ closes r2
      ∷ closes w2
      ∷ []

  child_table :
      (t : Table) (files : ℕ × ℕ × ℕ) (name : Bytes) (args : List Bytes)
      → AreFresh (r0 ∷ w0 ∷ r1 ∷ w1 ∷ r2 ∷ w2 ∷ [])
      → AreFiles t (r0, w1, w2) files
      → let t' = run_calls (standard_calls ++ execs name args ∷ []) t in
        AreFiles t' (0, 1, 2) files × AreClosed t' (r0 ∷ w0 ∷ r1 ∷ w1 ∷ r2 ∷ w2 ∷ [])
  unfolding run_calls
  child_table t files name args fresh open_files = ground arith

  fork_in_child :
      (p : ChildProcess) (pid : ℕ) {f : Forked}
      → p.pipes ≡ []
      → p.pid ≡ 0
      → fork fds (child pid) p ≡ ok f
      → (f.in_child ≡ standard_calls ++ execs p.name (p.name ∷ p.args) ∷ [])
        × (f.parent.pipes
            ≡ record (fd_pair 0 child_input) { parent_fd = some w0 }
              ∷ record (fd_pair 1 child_output) { parent_fd = some r1 }
              ∷ record (fd_pair 2 child_output) { parent_fd = some r2 }
              ∷ [])
  unfolding fork forked standard_pipes fd_pair child_side parent_side
  fork_in_child p pid no_pipes new h = ground arith

  -- When an object without pipes forks, then before `execvp` the program's standard input is the file
  -- behind the end to read of the first pipe, its standard output and error are those behind the
  -- ends to write of the other two,
  -- and the numbers of all six ends are closed in it; the parent keeps the other end of each. The
  -- three ends are open in the table at first, no number that `pipe` gives is that of a standard stream, and each is another.
  pub fork-standard_pipes :
      (p : ChildProcess) (pid : ℕ) (t : Table) (files : ℕ × ℕ × ℕ) {f : Forked}
      → AreFresh (r0 ∷ w0 ∷ r1 ∷ w1 ∷ r2 ∷ w2 ∷ [])
      → AreFiles t (r0, w1, w2) files
      → p.pipes ≡ []
      → p.pid ≡ 0
      → fork fds (child pid) p ≡ ok f
      → let t' = run_calls f.in_child t in
        AreFiles t' (0, 1, 2) files
        × AreClosed t' (r0 ∷ w0 ∷ r1 ∷ w1 ∷ r2 ∷ w2 ∷ [])
        × (f.parent.pipes
            ≡ record (fd_pair 0 child_input) { parent_fd = some w0 }
              ∷ record (fd_pair 1 child_output) { parent_fd = some r1 }
              ∷ record (fd_pair 2 child_output) { parent_fd = some r2 }
              ∷ [])
  fork-standard_pipes p pid t files fresh open_files no_pipes new h =
      let (in_child, kept) = fork_in_child p pid no_pipes new h in
      let started = child_table t files p.name (p.name ∷ p.args) fresh open_files in
      (rw in_child (started.0), rw in_child (started.1), kept)
