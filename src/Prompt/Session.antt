-- ===== src/Prompt/Session.antt =====
-- `main` of src/prompt.cc: the wrapped program, and how the session ends.
pub mod Ends
pub mod Tests
use modglue.Common.{
  ℕ, ◌≡◌, ◌≢◌, refl, sym, ◌∙◌, Bool, true, false, not, List, [], ◌∷◌, ◌++◌, Option, none, some,
  Bytes, codes, Result, ok, throw, ◌>>=◌, if◌then◌else◌, arith, ◌==◌, ℤ, pos, negsuc,
}
use modglue.System.{Call}
use modglue.Pipe.{Pipe, input, output, new_pipe, open_pipe}
use modglue.ExtProcess.Setup.{Host, setup_pipes}
use modglue.ExtProcess.Fork.{Sockets, ForkAnswer, child, Forked, fork}
use modglue.ExtProcess.{ExtProcess, new_process, input_pipe, output_pipe}
use modglue.Main.{Main, new_main, add_ipipe, add_opipe, add_process, check}

-- The pipes of the terminal's side.
abbrev pub s_stdin : Pipe
unfolding new_pipe
s_stdin = new_pipe input (codes "s_stdin")

abbrev pub s_stdout : Pipe
unfolding new_pipe
s_stdout = new_pipe output (codes "s_stdout")

abbrev pub s_stderr : Pipe
unfolding new_pipe
s_stderr = new_pipe output (codes "s_stderr")

-- `died`, the handler of `process_died`.
abbrev pub died : ExtProcess → Bool
died p = true

-- How `main` goes on: it leaves with a code, an exception leaves it, or the loop runs with the
-- object, the list of processes holding the wrapped program, and the pipe `t_stdin`.
pub data Session : Type 0 where
  leaves : ℤ → Session
  uncaught : Bytes → Session
  runs : Main → Pipe → Session

-- The part in the `try`.
connect_program : Host → Sockets → ForkAnswer → ExtProcess → Main → Result (Main × Pipe)
connect_program host sockets answer proc mm = do
  ready ← setup_pipes host proc
  f ← fork host sockets answer ready
  _ ← input_pipe f.parent (codes "stdout")
  _ ← input_pipe f.parent (codes "stderr")
  t_stdin ← output_pipe f.parent (codes "stdin")
  ok (add_process f.parent mm, t_stdin)

-- The three calls of `add`.
add_streams : ℕ → List Bytes → Result Main
unfolding s_stdin s_stdout s_stderr
add_streams sig_chld_pipe args = do
  (m0, _) ← add_ipipe (some 0) s_stdin (new_main sig_chld_pipe args)
  (m1, _) ← add_opipe (some 1) s_stdout m0
  (m2, _) ← add_opipe (some 2) s_stderr m1
  ok m2

-- `main`, on the arguments behind the program's own name, and whether the input is a terminal. The
-- object of the wrapped program is added before its pipes are set up; as the loop holds a pointer
-- to it, it is the object after `fork` here.
unfoldable pub session : List Bytes → Bool → ℕ → Host → Sockets → ForkAnswer → Session
unfolding connect_program add_streams
session [] tty sig_chld_pipe host sockets answer = leaves (negsuc 0)
session (program ∷ args) tty sig_chld_pipe host sockets answer =
    if not tty then leaves (negsuc 1) else (elim (add_streams sig_chld_pipe (program ∷ args)) [
      | throw e ↦ uncaught e
      | ok mm ↦
          if not (check mm).0
          then leaves (negsuc 1)
          else (elim (connect_program host sockets answer (new_process program args) mm) [
            | throw e ↦ leaves (negsuc 0)
            | ok (m, t_stdin) ↦ runs m t_stdin
          ])
    ])
