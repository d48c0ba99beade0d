-- ===== src/Prompt/Session/Tests.antt =====
-- The theorems on a session of `prompt`, at concrete inputs.
use modglue.Common.{
  ℕ, ◌≡◌, refl, Bool, true, false, List, [], ◌∷◌, ◌++◌, some, codes, arith, equal, drop, length,
}
use modglue.System.{Call}
use modglue.Pipe.{Pipe, new_pipe, set_unix_style, open_pipe, do_fcntl, close_external}
use modglue.ExtProcess.{new_process, input_pipe, output_pipe, close_childside}
use modglue.ExtProcess.Setup.{Host, setup_pipes, determine_path, find_path, scan_binary, unix_pipes}
use modglue.ExtProcess.Fork.{Sockets, child, fork, open_pipes}
use modglue.Main.{Main, new_main, read_args, add_ipipe, add_opipe, check}
use modglue.Main.Notice.{exited, notice}
use modglue.Main.Loop.{Handlers, ready, eintr, finished, select_loop}
use modglue.Process.{c_string}
use modglue.Prompt.Errors.{receive_stderr, receive_stderr_stale}
use modglue.Prompt.Session.{died, runs, session, s_stdin, s_stdout, s_stderr}
use modglue.Prompt.Session.Ends.{session_ends}

abbrev host : Host
host = record {
  stat = λ name. true;
  which = λ name. [];
  realpath = λ name. name;
  file = λ name. [];
  list_pipes = λ name. [];
}

abbrev sockets : Sockets
sockets = some (5, 6) ∷ some (7, 8) ∷ some (9, 10) ∷ some (11, 12) ∷ []

running :
    (m : Main) × (t_stdin : Pipe) × (session (codes "/bin/cat" ∷ []) true 3 host sockets (child 42)
      ≡ runs m t_stdin)
unfolding session s_stdin s_stdout s_stderr new_main read_args add_ipipe add_opipe check fork
    setup_pipes determine_path find_path scan_binary unix_pipes new_pipe set_unix_style open_pipes
    open_pipe close_childside close_external input_pipe output_pipe equal do_fcntl new_process
running = (_, _, refl)

abbrev handlers : Handlers
handlers = record { receiver = λ p. (p, true); process_died = died; alive = λ p. false }

abbrev all_set : ℕ → Bool
all_set fd = true

session_ends_example :
    (m' : Main) × (all : List Call) × (select_loop handlers
        (eintr ∷ ready all_set (notice (exited 42 0)) ∷ [])
        running.0
        []
      ≡ finished m' all)
session_ends_example =
    session_ends (codes "/bin/cat") [] 3 42 host sockets handlers all_set [] (eintr ∷ [])
      (exited 42 0) running.2 refl refl (tt, tt) refl

receive_stderr_stale_example :
    let behind = c_string (drop (length (codes "ab" ++ codes "c")) (0 ∷ 0 ∷ 0 ∷ 0 ∷ [])) in
    receive_stderr ((codes "ab" ++ codes "c") ∷ codes "xy" ∷ []) (0 ∷ 0 ∷ 0 ∷ 0 ∷ [])
    ≡ (codes "ab" ++ (codes "c" ++ behind)) ++ (codes "xy" ++ (codes "c" ++ behind))
receive_stderr_stale_example =
    receive_stderr_stale (0 ∷ 0 ∷ 0 ∷ 0 ∷ []) (codes "ab") (codes "c") (codes "xy") (ground arith)
      (ground arith) (ground arith) refl
