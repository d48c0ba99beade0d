-- ===== src/Main/Wiring/Tests.antt =====
-- The theorem on programs that `fork` has started, at a concrete program.
use modglue.Common.{
  ℕ, ◌≡◌, refl, List, [], ◌∷◌, ◌++◌, some, none, Bytes, codes, true, false, ok, arith,
}
use modglue.System.{Call, execs}
use modglue.Pipe.{Pipe, input, output, new_pipe, do_fcntl, open_pipe, close_external}
use modglue.ExtProcess.{ExtProcess, close_childside}
use modglue.ExtProcess.Setup.{Host}
use modglue.ExtProcess.Fork.{Sockets, Forked, child, fork, open_pipes}
use modglue.ExtProcess.Fork.Joined.{IsPair}
use modglue.Main.{new_main, add_opipe, add_ipipe}
use modglue.ExtProcess.Fork.Descriptors.{AllPipes}
use modglue.Main.Wiring.Ours.{IsPlain}
use modglue.Main.Wiring.Program.{connected, fork-add}

-- A program that has reported one pipe of each kind, and is given one option.
abbrev filter : ExtProcess
filter = record {
  name = codes "filter";
  args = codes "-v" ∷ [];
  full_path = codes "/bin/filter";
  modglue_binary = true;
  input_pipes = new_pipe input (codes "result") ∷ [];
  output_pipes = new_pipe output (codes "data") ∷ [];
  pid = 0;
  paused = false;
  exit_code = 0;
  pipes_done = true;
}

abbrev host : Host
host = record {
  stat = λ name. true;
  which = λ name. [];
  realpath = λ name. name;
  file = λ name. [];
  list_pipes = λ name. [];
}

abbrev pairs : Sockets
pairs = some (5, 6) ∷ some (7, 8) ∷ []

forked : (f : Forked) × (fork host pairs (child 77) filter ≡ ok f)
unfolding fork open_pipes open_pipe new_pipe
forked = (_, refl)

-- The parent's ends of the two pipes.
abbrev result_pipe : Pipe
unfolding new_pipe
result_pipe = record (new_pipe input (codes "result")) { fd = some 5; broken = false }

abbrev data_pipe : Pipe
unfolding new_pipe
data_pipe = record (new_pipe output (codes "data")) { fd = some 7; broken = false }

forked_pipes :
    forked.0.parent.input_pipes ++ forked.0.parent.output_pipes ≡ result_pipe ∷ data_pipe ∷ []
unfolding forked result_pipe data_pipe close_childside close_external
forked_pipes = refl

forked_args : (forked.0.parent.args ≡ codes "-v" ∷ []) × (forked.0.parent.modglue_binary ≡ true)
unfolding forked close_childside
forked_args = (refl, refl)

IsPlain-names : AllPipes IsPlain (result_pipe ∷ data_pipe ∷ [])
unfolding result_pipe data_pipe new_pipe
IsPlain-names = (ground arith, (ground arith, tt))

fork-add_example :
    (ours : ℕ) × (theirs : ℕ) × (calls : List Call) × (args : List Bytes) × (name : Bytes) × IsPair
      ours theirs pairs
    × (data_pipe.fd ≡ some ours)
    × (forked.0.in_child ≡ calls ++ execs name (name ∷ args) ∷ [])
    × (let m = new_main 3 args in
        (add_opipe none (new_pipe output data_pipe.name) m
          ≡ ok (record m { opipes = m.opipes ++ connected output data_pipe.name theirs ∷ [] }, []))
        × (add_ipipe none (new_pipe input data_pipe.name) m
            ≡ ok (
              record m { ipipes = m.ipipes ++ connected input data_pipe.name theirs ∷ [] },
              do_fcntl input (some theirs),
            )))
fork-add_example =
    fork-add host pairs 77 filter (result_pipe ∷ []) [] data_pipe 3 forked.1 forked_args.1
      (rw forked_args.0 (refl, tt)) forked_pipes (rw forked_pipes IsPlain-names) tt
