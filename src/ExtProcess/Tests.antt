-- ===== src/ExtProcess/Tests.antt =====
-- The theorems on external programs, at concrete inputs.
use modglue.Common.{
  equal, ◌≡◌, refl, true, false, [], ◌∷◌, ◌++◌, List, some, none, Bytes, codes, ok, arith,
}
use modglue.Pipe.{new_pipe, open_pipe, close_pipe, close_external, set_unix_style}
use modglue.ExtProcess.{
  ExtProcess, new_process, terminate, pause, probe_and_kill, each_pipe, close_childside,
}
use modglue.ExtProcess.Setup.{Host, scan_binary, determine_path, find_path, setup_pipes, unix_pipes}
use modglue.ExtProcess.Setup.Binary.{signature, scan_signature_missed}
use modglue.ExtProcess.Fork.{
  Sockets, Forked, fork, child, open_pipes, fork_interrupted, open_pipes_left, open_left,
}
use modglue.System.Table.{Table, run_calls, AreClosed, AreFiles}
use modglue.ExtProcess.Fork.Streams.{fork-run_calls}
use modglue.ExtProcess.Output.{destroy_process}
use modglue.ExtProcess.Ledger.{
  ProcessOp, sets_up, forks, terminates, pauses, Tracked, run_ops, apply_op,
}
use modglue.ExtProcess.Ledger.Balance.{fresh, destroy_process_balance}
use modglue.Pipe.Ledger.{count, closed_by}

abbrev two : Bytes
two = 7 ∷ 8 ∷ []

scan_signature_missed_example : scan_binary 0 (two ++ (signature ++ two)) ≡ false
scan_signature_missed_example = scan_signature_missed two two (omega arith) (omega arith)

-- A host on which each file is there and no file holds the signature.
abbrev host : Host
host = record {
  stat = λ name. true;
  which = λ name. codes "/bin/cat\n";
  realpath = λ name. name;
  file = λ name. two;
  list_pipes = λ name. [];
}

abbrev cat : ExtProcess
cat = record {
  name = codes "/bin/cat";
  args = [];
  full_path = [];
  modglue_binary = false;
  input_pipes = [];
  output_pipes = [];
  pid = 0;
  paused = false;
  exit_code = 0;
  pipes_done = false;
}

abbrev sockets : Sockets
sockets = some (3, 4) ∷ some (5, 6) ∷ some (7, 8) ∷ some (9, 10) ∷ []

forked_cat : (f : Forked) × (fork host sockets (child 42) cat ≡ ok f)
unfolding fork setup_pipes determine_path find_path scan_binary open_pipes open_pipe unix_pipes
    new_pipe set_unix_style equal
forked_cat = (_, refl)

-- Each descriptor stands for its own file.
abbrev files : Table
files n = some n

not_binary : scan_binary 0 (host.file (find_path host cat.name)) ≡ false
unfolding scan_binary
not_binary = refl

fork-run_calls_example :
    let t' = run_calls forked_cat.0.in_child files in
    AreFiles t' (0, 1, 2) (10, 4, 6)
    × AreClosed t' (3 ∷ 5 ∷ 7 ∷ 9 ∷ 4 ∷ 6 ∷ 10 ∷ [])
    × (t' 8 ≡ some 8)
fork-run_calls_example =
    fork-run_calls 3 4 5 6 7 8 9 10 host cat 42 files (10, 4, 6) (ground arith) (refl, refl, refl)
      (refl, refl) refl not_binary forked_cat.1

-- The sockets of a `fork` that fails at the second pipe.
abbrev one_pair : Sockets
one_pair = some (11, 12) ∷ none ∷ []

-- A program that cannot be started at first, is started then, ends, and is started again.
abbrev twice : List ProcessOp
twice =
    sets_up host
    ∷ forks host one_pair (child 41)
    ∷ terminates 0 true
    ∷ forks host sockets (child 42)
    ∷ pauses true
    ∷ terminates 0 true
    ∷ forks host sockets (child 43)
    ∷ []

started_twice : (t : Tracked) × (run_ops twice (fresh (codes "/bin/cat") []) ≡ ok t)
unfolding run_ops apply_op fork setup_pipes determine_path find_path scan_binary open_pipes
    open_pipe unix_pipes new_pipe set_unix_style equal new_process terminate pause probe_and_kill
    each_pipe close_pipe close_childside close_external fork_interrupted open_pipes_left open_left
started_twice = (_, refl)

destroy_process_balance_example :
    count 11 (closed_by (destroy_process started_twice.0.process) ++ started_twice.0.closed)
    ≡ count 11 started_twice.0.given
destroy_process_balance_example =
    destroy_process_balance (codes "/bin/cat") [] twice 11 started_twice.1
