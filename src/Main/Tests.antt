-- ===== src/Main/Tests.antt =====
-- The theorems on the event loop and the pipes of a program, at concrete inputs.
use modglue.Common.{
  ℕ, ◌≡◌, refl, true, false, ◌||◌, List, [], ◌∷◌, ◌++◌, some, none, Bytes, codes, ok, arith,
}
use modglue.System.{Call}
use modglue.Pipe.{Pipe, input}
use modglue.ExtProcess.{ExtProcess}
use modglue.ExtProcess.Setup.{setup_pipes_from_string}
use modglue.Main.{Main, build_pipe_list}
use modglue.Main.Notice.{
  notice, read_notice, exited, signalled, ended, sig_chld, read_notice-notice,
}
use modglue.Main.Listing.{flipped_inputs, flipped_outputs, setup_pipes_from_string-build_pipe_list}
use modglue.Main.Loop.{Handlers, fds_to_watch, returned, select_callback}
use modglue.Main.Loop.Watch.{mem_fd}
use modglue.Main.Loop.Death.{select_callback-sig_chld}

abbrev named : ℕ → Bytes → Pipe
named fd name = record {
  name = name;
  direction = input;
  fd = none;
  fd_external = some fd;
  first_read_after_select = false;
  broken = false;
  unix_style_pipe = false;
  make_blocking = false;
}

abbrev opened : ℕ → Bytes → Pipe
opened fd name = record (named fd name) { fd = some fd; fd_external = none }

abbrev pub worker : ℕ → ExtProcess
worker pid = record {
  name = codes "worker";
  args = codes "file" ∷ [];
  full_path = codes "/bin/worker";
  modglue_binary = true;
  input_pipes = opened 9 (codes "stdout") ∷ [];
  output_pipes = [];
  pid = pid;
  paused = false;
  exit_code = 0;
  pipes_done = true;
}

abbrev pub program : Main
program = record {
  list_pipes = false;
  ipipes = opened 5 (codes "in") ∷ [];
  opipes = opened 6 (codes "out") ∷ [];
  pipe_fds = [];
  processes = worker 11 ∷ worker 12 ∷ [];
  terminate_main_loop = false;
  sig_chld_pipe = 3;
}

abbrev pub handlers : Handlers
handlers = record { receiver = λ p. (p, true); process_died = λ p. true; alive = λ p. false }

setup_pipes_from_string-build_pipe_list_example :
    setup_pipes_from_string (build_pipe_list program) (worker 11)
    ≡ ok (record (worker 11) {
      input_pipes = (worker 11).input_pipes ++ flipped_inputs program.opipes;
      output_pipes = (worker 11).output_pipes ++ flipped_outputs program.ipipes;
    })
setup_pipes_from_string-build_pipe_list_example =
    setup_pipes_from_string-build_pipe_list program (worker 11) (ground arith) (ground arith)

read_notice-notice_example :
    (read_notice (notice (exited 12 3)) ≡ (12, 3)) × (read_notice (notice (signalled 12)) ≡ (12, 0))
read_notice-notice_example = read_notice-notice 12 3

told : (message : Bytes) × (sig_chld (ended (exited 12 3)) ≡ ok message)
unfolding sig_chld
told = (_, refl)

select_callback-sig_chld_example :
    (p' : ExtProcess) × (calls : List Call) × (select_callback handlers told.0 program.sig_chld_pipe
        program
      ≡ returned
          (record program {
            processes = (worker 11 ∷ []) ++ p' ∷ [];
            terminate_main_loop = program.terminate_main_loop || handlers.process_died p';
          })
          calls
          true)
    × (p'.pid ≡ 0)
    × (p'.exit_code ≡ 3)
select_callback-sig_chld_example =
    select_callback-sig_chld handlers program (worker 11 ∷ []) [] (worker 12) (exited 12 3) refl
      refl (ground arith) told.1

watched : mem_fd 9 (fds_to_watch program).0 ≡ true
unfolding fds_to_watch
watched = refl
