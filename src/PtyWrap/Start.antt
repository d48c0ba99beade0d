-- ===== src/PtyWrap/Start.antt =====
-- The part of `main` of src/ptywrap.cc before the loop: the pseudo-terminals, the child and its
-- streams; and the handler of SIGTERM and SIGINT.
use modglue.Common.{
  ℕ, Bool, true, false, not, List, [], ◌∷◌, Option, none, some, Bytes, codes, ok, throw, Result,
  ◌>>=◌, if◌then◌else◌,
}
use modglue.System.{Call, closes, nonblock, dups, execs, kills, writes, sets_modes, sigterm}
use modglue.System.Terminal.{Termios}
use modglue.ExtProcess.Fork.{ForkAnswer, no_fork, child}

-- `open_pty_slave`, on what `tcgetattr` answers, and whether `tcsetattr` succeeds: the raw modes.
unfoldable pub open_pty_slave : Option Termios → Bool → Result Termios
open_pty_slave none set_ok = throw (codes "cannot get tty mode")
open_pty_slave (some temp_mode) set_ok =
    if set_ok
    then ok (record temp_mode {
      iflag = 0;
      opost = false;
      isig = false;
      icanon = false;
      echo = false;
      csize = 8;
      parenb = false;
      vmin = 1;
      vtime = 1;
    })
    else throw (codes "cannot set tty mode to raw")

-- `sig_kill`; then the program exits.
pub sig_kill : ℕ → List Call
sig_kill childpid = kills childpid sigterm ∷ []

-- The three pairs of `openpty`, the master first.
pub record Ptys : Type 0 where
  pub p_stdin : ℕ × ℕ
  pub p_stdout : ℕ × ℕ
  pub p_stderr : ℕ × ℕ

-- The modes of the three slaves: what `tcgetattr` answers on each.
abbrev pub Modes : Type 0
Modes = Option Termios × Option Termios × Option Termios

-- The calls of the child, up to `execvp`; `signalling` is the end of `sig_chld_pipe` to write.
unfoldable pub child_calls : Bytes → List Bytes → Ptys → ℕ → List Call
child_calls program args ptys signalling =
    closes ptys.p_stdin.0
    ∷ closes ptys.p_stdout.0
    ∷ closes ptys.p_stderr.0
    ∷ sets_modes (some ptys.p_stdin.1)
    ∷ sets_modes (some ptys.p_stdout.1)
    ∷ sets_modes (some ptys.p_stderr.1)
    ∷ dups (some ptys.p_stdin.1) 0
    ∷ dups (some ptys.p_stdout.1) 1
    ∷ dups (some ptys.p_stderr.1) 2
    ∷ closes ptys.p_stdin.1
    ∷ closes ptys.p_stdout.1
    ∷ closes ptys.p_stderr.1
    ∷ writes (some signalling) (codes "G")
    ∷ execs program (program ∷ args)
    ∷ []

-- The child, where each `tcsetattr` succeeds.
unfoldable pub child_part : Bytes → List Bytes → Ptys → Modes → ℕ → Result (List Call)
unfolding open_pty_slave child_calls
child_part program args ptys (on_in, on_out, on_err) signalling = do
  _ ← open_pty_slave on_in true
  _ ← open_pty_slave on_out true
  _ ← open_pty_slave on_err true
  ok (child_calls program args ptys signalling)

-- How the part ends: with the usage, or with a child. Its calls come first, or its exception, and
-- then the parent's calls.
pub data Started : Type 0 where
  usage : Started
  started : ℕ → Result (List Call) → List Call → Started

parent_part : Ptys → List Call
parent_part ptys =
    nonblock (some 0) ∷ nonblock (some ptys.p_stdout.0) ∷ nonblock (some ptys.p_stderr.0) ∷ []

-- The part, on the arguments behind the program's own name, the three pairs, the answer of `pipe`,
-- whether each `sigaction` succeeds, and the answer of `fork`.
unfoldable pub start_child :
    List Bytes → Ptys → Modes → Option (ℕ × ℕ) → Bool → ForkAnswer → Result Started
unfolding child_part parent_part
start_child [] ptys modes sig_chld_pipe handled answer = ok usage
start_child (program ∷ args) ptys modes none handled answer =
    throw (codes "cannot create sig_chld_pipe")
start_child (program ∷ args) ptys modes (some (reading, writing)) handled answer =
    if not handled then throw (codes "sigaction failed") else (elim answer [
      | no_fork ↦ throw (codes "cannot fork")
      | child pid ↦ ok (started pid (child_part program args ptys modes writing) (parent_part ptys))
    ])
