-- ===== src/ExtProcess/Fork/Streams.antt =====
-- The standard streams of a Unix program that `fork` has started.
use modglue.Common.{
  ℕ, ◌≡◌, sym, ◌∙◌, if_false, if◌then◌else◌, false, List, [], ◌∷◌, ◌++◌, some, none, codes, Bytes,
  inl, inr, Bool-cases, >>=-eq-ok, ok, arith, equal, ◌==◌,
}
use modglue.System.{Call, closes, dups, nonblock, execs}
use mathlib.Core.Path.{subst}
use modglue.System.Table.{assign, run_dup, Table, run_calls, AreFresh, AreClosed, AreFiles}
use modglue.Pipe.{Pipe, input, output, open_pipe, close_pipe, new_pipe, set_unix_style}
use modglue.ExtProcess.Setup.{
  Host, setup_pipes, unix_pipes, find_path, scan_binary, set_first, is_nil,
}
use modglue.ExtProcess.Fork.{
  Sockets, child, Forked, fork, open_pipes, open_each, branches, dup_unix_pipes, real_args,
}
use modglue.ExtProcess.{ExtProcess, close_parentside, each_pipe}

-- The pipes that `setup_pipes` gives a Unix program.
abbrev pub ins : List Pipe
unfolding new_pipe set_unix_style
ins =
    set_unix_style (new_pipe input (codes "stdout"))
    ∷ set_unix_style (new_pipe input (codes "stderr"))
    ∷ []

abbrev pub outs : List Pipe
unfolding new_pipe
outs = new_pipe output (codes "startup_args") ∷ new_pipe output (codes "stdin") ∷ []

record IsUnix (p : ExtProcess) : Type 0 where
  plain : p.modglue_binary ≡ false
  input_are : p.input_pipes ≡ ins
  output_are : p.output_pipes ≡ outs

setup_pipes-IsUnix :
    (host : Host) (p : ExtProcess) {q : ExtProcess}
    → (p.input_pipes ≡ []) × (p.output_pipes ≡ [])
    → scan_binary 0 (host.file (find_path host p.name)) ≡ false
    → setup_pipes host p ≡ ok q
    → IsUnix q
unfolding setup_pipes is_nil unix_pipes set_first new_pipe set_unix_style ins outs
setup_pipes-IsUnix host p fresh plain h = record {
  plain = ground arith;
  input_are = ground arith;
  output_are = ground arith;
}

-- The program's ends of the four pairs of sockets, and ours.
module _ (a1 b1 a2 b2 a3 b3 a4 b4 : ℕ) where
  abbrev pairs : Sockets
  pairs = some (a1, b1) ∷ some (a2, b2) ∷ some (a3, b3) ∷ some (a4, b4) ∷ []

  -- What the child does before `execvp`: it closes our ends, and moves its ends to their places.
  abbrev unix_calls : List Call
  unix_calls =
      closes a3
      ∷ closes a4
      ∷ closes a1
      ∷ closes a2
      ∷ dups (some b4) 0
      ∷ closes b4
      ∷ dups (some b1) 1
      ∷ closes b1
      ∷ dups (some b2) 2
      ∷ closes b2
      ∷ nonblock (some 0)
      ∷ []

  -- The object whose pipes `open_pipes` has opened.
  abbrev opened_unix : ExtProcess → ExtProcess
  unfolding new_pipe set_unix_style
  opened_unix q = record q {
    input_pipes =
        record (set_unix_style (new_pipe input (codes "stdout"))) {
          fd = some a1;
          fd_external = some b1;
          broken = false;
        }
        ∷ record (set_unix_style (new_pipe input (codes "stderr"))) {
          fd = some a2;
          fd_external = some b2;
          broken = false;
        }
        ∷ [];
    output_pipes =
        record (new_pipe output (codes "startup_args")) {
          fd = some a3;
          fd_external = some b3;
          broken = false;
        }
        ∷ record (new_pipe output (codes "stdin")) {
          fd = some a4;
          fd_external = some b4;
          broken = false;
        }
        ∷ [];
  }

  open_pipes_unix :
      (q : ExtProcess) {o : ExtProcess} {calls : List Call}
      → IsUnix q
      → open_pipes pairs q ≡ ok (o, calls)
      → opened_unix q ≡ o
  unfolding open_pipes open_each open_pipe ins outs new_pipe set_unix_style opened_unix
  open_pipes_unix q u h = cc (rw (u.input_are, u.output_are, open_pipes) at h)

  branches_unix :
      (q : ExtProcess) (pid : ℕ) (calls : List Call) {f : Forked}
      → q.modglue_binary ≡ false
      → branches (child pid) (record (opened_unix q) { paused = false }) calls ≡ ok f
      → f.in_child ≡ unix_calls ++ execs q.name (q.name ∷ q.args) ∷ []
  unfolding branches opened_unix new_pipe set_unix_style close_parentside each_pipe close_pipe
      dup_unix_pipes real_args equal
  branches_unix q pid calls plain h = cc (rw (plain, branches) at h)

  -- What the calls do to a table.
  child_table :
      (t : Table) (files : ℕ × ℕ × ℕ) (name : Bytes) (args : List Bytes)
      → AreFresh (a1 ∷ b1 ∷ a2 ∷ b2 ∷ a3 ∷ b3 ∷ a4 ∷ b4 ∷ [])
      → AreFiles t (b4, b1, b2) files
      → let t' = run_calls (unix_calls ++ execs name args ∷ []) t in
        AreFiles t' (0, 1, 2) files
        × AreClosed t' (a1 ∷ a2 ∷ a3 ∷ a4 ∷ b1 ∷ b2 ∷ b4 ∷ [])
        × (t' b3 ≡ t b3)
  unfolding run_calls
  child_table t (f0, f1, f2) name args fresh (open0, open1, open2) =
      let t1 : Table = assign (assign (assign (assign t a3 none) a4 none) a1 none) a2 none in
      let t2 : Table = assign (assign t1 0 (some f0)) b4 none in
      let t3 : Table = assign (assign t2 1 (some f1)) b1 none in
      let t4 : Table = assign (assign t3 2 (some f2)) b2 none in
      let last : List Call = closes b2 ∷ nonblock (some 0) ∷ execs name args ∷ [] in
      let middle : List Call = closes b1 ∷ dups (some b2) 2 ∷ last in
      let made : run_calls (unix_calls ++ execs name args ∷ []) t ≡ t4 =
        run_dup b4 0 f0 (closes b4 ∷ dups (some b1) 1 ∷ middle) t1 (ground arith)
        ∙ run_dup b1 1 f1 middle t2 (ground arith)
        ∙ run_dup b2 2 f2 last t3 (ground arith) in
      subst
        (λ (u : Table).
          AreFiles u (0, 1, 2) (f0, f1, f2)
          × AreClosed u (a1 ∷ a2 ∷ a3 ∷ a4 ∷ b1 ∷ b2 ∷ b4 ∷ [])
          × (u b3 ≡ t b3))
        (sym made) (ground arith)

  -- When a new object forks a program that is no modglue program, then before `execvp` the program's
  -- standard input, output and error are the files behind its ends of the pairs of sockets that `open` got for the
  -- pipes named stdin, stdout and stderr; our ends are closed in it, and so are the numbers that
  -- these three sockets had. Its end of the fourth pair, that of startup_args, stays as it is. The
  -- three ends are open in the table at first, no socket's number is that of a standard stream, and
  -- each is another.
  pub fork-run_calls :
      (host : Host) (p : ExtProcess) (pid : ℕ) (t : Table) (files : ℕ × ℕ × ℕ) {f : Forked}
      → AreFresh (a1 ∷ b1 ∷ a2 ∷ b2 ∷ a3 ∷ b3 ∷ a4 ∷ b4 ∷ [])
      → AreFiles t (b4, b1, b2) files
      → (p.input_pipes ≡ []) × (p.output_pipes ≡ [])
      → p.pipes_done ≡ false
      → scan_binary 0 (host.file (find_path host p.name)) ≡ false
      → fork host pairs (child pid) p ≡ ok f
      → let t' = run_calls f.in_child t in
        AreFiles t' (0, 1, 2) files
        × AreClosed t' (a1 ∷ a2 ∷ a3 ∷ a4 ∷ b1 ∷ b2 ∷ b4 ∷ [])
        × (t' b3 ≡ t b3)
  unfolding fork
  fork-run_calls host p pid t files {f} fresh open_files none_yet not_done plain h =
      elim (Bool-cases (p.pid == 0)) [
        | inr running ↦ absurd (cc (rw running at h))
        | inl new ↦
            let (q, first, h') =
              >>=-eq-ok (if p.pipes_done then ok p else setup_pipes host p) _
                (rw (new, fork) at h) in
            let set_up = sym (if_false p.pipes_done (ok p) (setup_pipes host p) not_done) ∙ first in
            let u = setup_pipes-IsUnix host p none_yet plain set_up in
            let ((o, calls), second, h'') = >>=-eq-ok (open_pipes pairs q) _ h' in
            let same : opened_unix q ≡ o = open_pipes_unix q u second in
            let in_child = branches_unix q pid calls u.plain (rw (sym same) at h'') in
            rw in_child (child_table t files q.name (q.name ∷ q.args) fresh open_files)
      ]
